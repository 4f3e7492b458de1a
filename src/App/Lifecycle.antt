-- ===== src/App/Lifecycle.antt =====
-- App.Run, App.Serve and App.closeResources of app/lifecycle.go. An error is a list of texts, as
-- errors.Join joins them, and nil is the empty list. What the listener, the server and the closers
-- return is a parameter.
use content_platform.Prelude.{
  Text, List, [], ◌∷◌, ◌++◌, codes, Bool, true, false, Option, none, some, if◌then◌else◌, ◌≡◌, refl,
  ap, arith,
}
use content_platform.App.Start.{Closer}

abbrev pub GoError : Type 0
GoError = List Text

-- closers, closeOnce and closeErr of App, with the closers that Close was called of, in order.
pub record Resources : Type 0 where
  pub closers : List (Option Closer)
  pub once_done : Bool
  pub close_err : GoError
  pub closed : List Closer

-- What the server's Serve returns: ErrServerClosed, nil, or another error.
pub data Served : Type 0 where
  server_closed served_without_error : Served
  serve_failed : Text → Served

-- What ends the select of Serve.
pub data Ending : Type 0 where
  stopped : Served → Ending
  -- the context is done: what Shutdown, Close (where it is called) and Serve then return
  context_done : (shutdown force_close : GoError) → Served → Ending

-- The loop over the closers: the errors, and the closers that were closed.
unfoldable pub close_all : (Closer → GoError) → List (Option Closer) → GoError × List Closer
close_all close [] = ([], [])
close_all close (none ∷ closers) = close_all close closers
close_all close (some c ∷ closers) =
    (close c ++ (close_all close closers).0, c ∷ (close_all close closers).1)

module _ (close : Closer → GoError) where
  -- What closeOnce runs.
  unfoldable pub run_once : Resources → Resources
  unfolding close_all
  run_once a = record a {
    once_done = true;
    close_err = (close_all close a.closers).0;
    closed = a.closed ++ (close_all close a.closers).1;
  }

  -- App.closeResources
  unfoldable pub close_resources : Resources → GoError × Resources
  unfolding run_once
  close_resources a = let b = if a.once_done then a else run_once a in (b.close_err, b)

  -- `errors.Join(first, closeErr)` behind the closing
  unfoldable pub join_closed : GoError → GoError × Resources → GoError × Resources
  join_closed first (close_err, a) = (first ++ close_err, a)

  unfoldable pub stop_error : Served → GoError
  stop_error server_closed = []
  stop_error served_without_error = codes "serve HTTP: %!w(<nil>)" ∷ []
  stop_error (serve_failed e) = (codes "serve HTTP: " ++ e) ∷ []

  -- The error of Serve behind a shutdown, where nil stays nil.
  unfoldable pub serve_error : Served → GoError
  serve_error server_closed = []
  serve_error served_without_error = []
  serve_error (serve_failed e) = (codes "serve HTTP: " ++ e) ∷ []

  -- `if shutdownErr != nil { forceCloseErr = a.server.Close() }`
  unfoldable pub force_error : GoError → GoError → GoError
  force_error [] force_close = []
  force_error (e ∷ errors) force_close = force_close

  -- App.Serve
  unfoldable pub serve : Ending → Resources → GoError × Resources
  unfolding close_resources join_closed stop_error serve_error force_error
  serve (stopped served) a = join_closed (stop_error served) (close_resources a)
  serve (context_done shutdown force_close served) a =
      join_closed (shutdown ++ (force_error shutdown force_close ++ serve_error served))
        (close_resources a)

  -- App.Run on an address: `none` is a listener that was made, and `some` the error of net.Listen
  unfoldable pub run : Text → Option Text → Ending → Resources → GoError × Resources
  unfolding serve
  run address (some e) ending a =
      join_closed ((codes "listen on " ++ (address ++ (codes ": " ++ e))) ∷ []) (close_resources a)
  run address none ending a = serve ending a

  -- The closers that are not nil.
  abbrev pub present : List (Option Closer) → List Closer
  present [] = []
  present (none ∷ closers) = present closers
  present (some c ∷ closers) = c ∷ present closers

  close_all-present :
      (closers : List (Option Closer)) → (close_all close closers).1 ≡ present closers
  unfolding close_all
  close_all-present [] = refl
  close_all-present (none ∷ closers) = close_all-present closers
  close_all-present (some c ∷ closers) = ap (λ (t : List Closer). c ∷ t) (close_all-present closers)

  close_resources-closed :
      (a : Resources)
      → a.once_done ≡ false
      → a.closed ≡ []
      → ((close_resources a).1.closed ≡ present a.closers)
        × ((close_resources a).1.once_done ≡ true)
  unfolding close_resources run_once
  close_resources-closed a h e = ground (arith, close_all-present a.closers)

  -- However the application ends (the listener fails, the server stops, or the context is done and the
  -- shutdown succeeds or is forced), Run has closed every closer that is not nil, each once and in their
  -- order, and a later closeResources closes nothing more and returns the error of the first.
  pub run-closed :
      (address : Text) (listen_error : Option Text) (ending : Ending) (a : Resources)
      → a.once_done ≡ false
      → a.closed ≡ []
      → ((run address listen_error ending a).1.closed ≡ present a.closers)
        × (close_resources (run address listen_error ending a).1
            ≡ ((close_all close a.closers).0, (run address listen_error ending a).1))
  unfolding run serve join_closed close_resources run_once
  run-closed address (some e) ending a h k = ground (arith, close_all-present a.closers)
  run-closed address none (stopped served) a h k = ground (arith, close_all-present a.closers)
  run-closed address none (context_done shutdown force_close served) a h k =
      ground (arith, close_all-present a.closers)
