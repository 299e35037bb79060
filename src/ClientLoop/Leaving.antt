-- ===== src/ClientLoop/Leaving.antt =====
-- The end of incomingRequestHandler of rtspproxy/client.go: the client leaves its stream.
use rtsp_proxy.Client.{Client}
use rtsp_proxy.ClientLoop.Serving.{key_of}
use rtsp_proxy.ClientLoop.{
  Proxy, Visit, Served, answers, hangs_up, crashes, change_stream, handle_binary, forward_binary,
  leave,
}
use rtsp_proxy.Manager.{update_object}
use rtsp_proxy.Prelude.Dict.{nat_eq, bytes_eq_inst, lookup, delete, lookup-delete}
use rtsp_proxy.Prelude.{
  ℕ, zero, suc, ◌≡◌, ◌≢◌, inl, inr, refl, sym, ap, subst, ◌∙◌, arith, Bool, true, false, not, ◌&&◌,
  List, [], ◌∷◌, Option, none, some, Bytes, Bool-cases, if◌then◌else◌, eq_refl, ◌==◌,
}
use rtsp_proxy.Response.{Response}
use rtsp_proxy.Session.Lookup.{get_elem?}
use rtsp_proxy.Stream.{Stream, is_nil, is_state, destroyed, remove_client}
use rtsp_proxy.Url.{Url}

get_elem?-update_object :
    (n : ℕ) (f : Stream → Stream) (ss : List Stream) (s : Stream)
    → get_elem? (update_object n f ss) n ≡ some s
    → (t : Stream) × (s ≡ f t)
get_elem?-update_object n f [] s e = absurd (cc)
get_elem?-update_object zero f (t ∷ ss) s e = (t, cc)
get_elem?-update_object (suc n) f (t ∷ ss) s e = get_elem?-update_object n f ss s e

-- There is no session for this client.
abbrev pub Lacks : ℕ → Stream → Type 0
Lacks client s = lookup client s.clients ≡ none

if-Lacks :
    (client : ℕ) (b : Bool) (x y : Stream)
    → Lacks client x
    → Lacks client y
    → Lacks client (if b then x else y)
if-Lacks client true x y h k = h
if-Lacks client false x y h k = k

remove_client-Lacks :
    (now : ℕ) (s : Stream) (client : ℕ) → Lacks client (remove_client now s client)
unfolding remove_client
remove_client-Lacks now s client =
    if-Lacks client (is_nil (delete client s.clients) && not (is_state s.state destroyed)) _ _ gone
      gone
  where
    gone : lookup client (delete client s.clients) ≡ none
    gone = lookup-delete client client s.clients ∙ ground (arith, eq_refl client)

-- No stream has a session for this client, and no stream but this one.
abbrev pub NoneHas : ℕ → List Stream → Type 0
NoneHas client ss = (k : ℕ) (s : Stream) → get_elem? ss k ≡ some s → Lacks client s

abbrev pub OthersLack : ℕ → ℕ → List Stream → Type 0
OthersLack n client ss = (k : ℕ) (s : Stream) → k ≢ n → get_elem? ss k ≡ some s → Lacks client s

-- The client's current stream is the one that the manager knows for its target, and no other stream
-- has a session for it.
pub record Inside (n : ℕ) (c : Client) (p : Proxy) : Type 0 where
  pub current : p.current ≡ some n
  pub same : p.client ≡ c
  pub known : lookup (key_of c) p.manager.streams ≡ some n
  pub others : OthersLack n c.id p.manager.objects

-- No stream has a session for the client at the end, unless the proxy has panicked.
abbrev pub EndsLeft : ℕ → List Response × Option Proxy → Type 0
EndsLeft client (responses, none) = Unit
EndsLeft client (responses, some p) = NoneHas client p.manager.objects

-- Wherever a request leads, the client is still inside.
abbrev pub GoesOn : ℕ → Client → Served → Type 0
GoesOn n c (answers p response) = Inside n c p
GoesOn n c (hangs_up p response) = Inside n c p
GoesOn n c crashes = Unit

update_object-other :
    (n k : ℕ) (f : Stream → Stream) (ss : List Stream) (s : Stream)
    → k ≢ n
    → get_elem? (update_object n f ss) k ≡ some s
    → get_elem? ss k ≡ some s
update_object-other n k f [] s d e = e
update_object-other zero zero f (t ∷ ss) s d e = absurd (d refl)
update_object-other zero (suc k) f (t ∷ ss) s d e = e
update_object-other (suc n) zero f (t ∷ ss) s d e = e
update_object-other (suc n) (suc k) f (t ∷ ss) s d e =
    update_object-other n k f ss s (λ q. d (ap suc q)) e

pub change_stream-Inside :
    (n : ℕ) (c : Client) (p : Proxy) (f : Stream → Stream)
    → Inside n c p
    → Inside n c (change_stream n f p)
change_stream-Inside n c p f i = record {
  current = i.current;
  same = i.same;
  known = i.known;
  others = λ k s d e. i.others k s d (update_object-other n k f p.manager.objects s d e);
}

pub handle_binary-Inside :
    (v : Visit) (n channel : ℕ) (payload : Bytes) (c : Client) (p : Proxy)
    → Inside n c p
    → Inside n c (handle_binary v p channel payload)
unfolding handle_binary
handle_binary-Inside v n channel payload c p i =
    let f = forward_binary v.net p.client.id channel payload in
    subst (λ (o : Option ℕ). Inside n c (elim o [ none ↦ p | some m ↦ change_stream m f p ]))
      (sym i.current) (change_stream-Inside n c p f i)

-- When the client leaves its stream, no stream has a session for it.
left-NoneHas :
    (now n : ℕ) (c : Client) (p : Proxy)
    → Inside n c p
    → NoneHas c.id (change_stream n (λ s. remove_client now s p.client.id) p).manager.objects
left-NoneHas now n c p i k s e = elim (Bool-cases (k == n)) [
  | inr d ↦
      let other : k ≢ n = λ q. absurd (ground arith) in
      i.others k s other
        (update_object-other n k (λ s. remove_client now s p.client.id) p.manager.objects s other e)
  | inl q ↦
      let same : k ≡ n = ground arith in
      let (t, r) =
        get_elem?-update_object n (λ s. remove_client now s p.client.id) p.manager.objects s
          (subst
            (λ m.
              get_elem? (update_object n (λ s. remove_client now s p.client.id) p.manager.objects) m
              ≡ some s)
            same e) in
      subst (Lacks c.id) (sym r) (
        subst (λ (d : Client). Lacks c.id (remove_client now t d.id)) (sym i.same)
          (remove_client-Lacks now t c.id))
]

module _ (url_parse : Bytes → Option Url) where
  pub leave-NoneHas :
      (now n : ℕ) (c : Client) (p : Proxy)
      → Inside n c p
      → NoneHas c.id (leave url_parse now p).manager.objects
  unfolding leave
  leave-NoneHas now n c p i =
      subst
        (λ (o : Option ℕ).
          NoneHas c.id
            (elim o as (λ _. Proxy) [
              | none ↦ p
              | some m ↦ change_stream m (λ s. remove_client now s p.client.id) p
            ]).manager.objects)
        (sym i.current) (left-NoneHas now n c p i)
