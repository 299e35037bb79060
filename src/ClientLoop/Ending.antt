-- ===== src/ClientLoop/Ending.antt =====
-- A client's connection, from its first request to its end: incomingRequestHandler of
-- rtspproxy/client.go.
use rtsp_proxy.Client.{Client, is_empty}
use rtsp_proxy.ClientLoop.Arriving.{Enters, serve_request-Enters}
use rtsp_proxy.ClientLoop.Staying.{serve_request-GoesOn}
use rtsp_proxy.ClientLoop.Leaving.{
  NoneHas, Inside, EndsLeft, GoesOn, handle_binary-Inside, leave-NoneHas,
}
use rtsp_proxy.ClientLoop.{
  Event, binary, asks, Proxy, Visit, Served, answers, hangs_up, crashes, handle_binary,
  serve_request, leave, run_client,
}
use rtsp_proxy.Prelude.{◌≡◌, sym, subst, false, List, [], ◌∷◌, Option, none, some, Bytes, ℕ}
use rtsp_proxy.Response.{Response}
use rtsp_proxy.Url.{Url}

module _ (url_parse : Bytes → Option Url) where
  -- What the loop makes of what a request comes to.
  abbrev continued : ℕ → List (Visit × Event) → Served → List Response × Option Proxy
  continued now events (answers p response) =
      let (responses, end) = run_client url_parse now p events in (response ∷ responses, end)
  continued now events (hangs_up p none) = ([], some (leave url_parse now p))
  continued now events (hangs_up p (some response)) = (response ∷ [], some (leave url_parse now p))
  continued now events crashes = ([], none)

  continued-EndsLeft :
      (now n : ℕ) (c : Client) (events : List (Visit × Event)) (o : Served)
      → ((p : Proxy) → Inside n c p → EndsLeft c.id (run_client url_parse now p events))
      → GoesOn n c o
      → EndsLeft c.id (continued now events o)
  continued-EndsLeft now n c events (answers p response) rest i = rest p i
  continued-EndsLeft now n c events (hangs_up p none) rest i = leave-NoneHas url_parse now n c p i
  continued-EndsLeft now n c events (hangs_up p (some response)) rest i =
      leave-NoneHas url_parse now n c p i
  continued-EndsLeft now n c events crashes rest i = tt

  Inside-EndsLeft :
      (now n : ℕ) (c : Client) (p : Proxy) (events : List (Visit × Event))
      → is_empty c.host ≡ false
      → Inside n c p
      → EndsLeft c.id (run_client url_parse now p events)
  unfolding run_client
  Inside-EndsLeft now n c p [] t i = leave-NoneHas url_parse now n c p i
  Inside-EndsLeft now n c p ((v, binary channel payload) ∷ events) t i =
      Inside-EndsLeft now n c (handle_binary v p channel payload) events t
        (handle_binary-Inside v n channel payload c p i)
  Inside-EndsLeft now n c p ((v, asks text) ∷ events) t i =
      continued-EndsLeft now n c events (serve_request url_parse v p text)
        (λ q j. Inside-EndsLeft now n c q events t j)
        (serve_request-GoesOn url_parse v n c p text t i)

  entered-EndsLeft :
      (now : ℕ) (p : Proxy) (response : Response) (id : ℕ) (events : List (Visit × Event))
      → is_empty p.client.host ≡ false
      → Enters id (answers p response)
      → EndsLeft id (run_client url_parse now p events)
  entered-EndsLeft now p response id events t (n, (i, e)) =
      subst (λ j. EndsLeft j (run_client url_parse now p events)) e
        (Inside-EndsLeft now n p.client p events t i)

-- The connection of a client that no stream has a session for, and whose first request is answered
-- and gives it a target: whatever the client sends then, and wherever its connection ends, no stream
-- has a session for the client afterwards, unless the proxy has panicked.
pub run_client-EndsLeft :
    (url_parse : Bytes → Option Url) (now : ℕ) (v : Visit) (p p' : Proxy) (text : Bytes)
    (response : Response) (events : List (Visit × Event))
    → NoneHas p.client.id p.manager.objects
    → serve_request url_parse v p text ≡ answers p' response
    → is_empty p'.client.host ≡ false
    → EndsLeft p.client.id (run_client url_parse now p ((v, asks text) ∷ events))
unfolding run_client
run_client-EndsLeft url_parse now v p p' text response events h e t =
    subst (λ (o : Served). EndsLeft p.client.id (continued url_parse now events o)) (sym e)
      (entered-EndsLeft url_parse now p' response p.client.id events t
        (subst (Enters p.client.id) e (serve_request-Enters url_parse v p text h)))
