-- ===== src/Http/Server/Laws.antt =====
-- What the requests of a process meet, in their order.
use go_espn_api.Prelude.{◌≡◌, true, false, List, ◌∷◌, All, ◌⊎◌}
use go_espn_api.Http.Server.{
  Passage, handed_on, preparing_shutdown, server_state_middleware, in_cleanup_sleep, exited, Server,
}

-- All of some requests are refused.
abbrev pub AllRefused : List Passage → Type 0
AllRefused = All (λ p. p ≡ preparing_shutdown)

-- Requests are handed on, and from one of them on all are refused.
pub data Drains : List Passage → Type 0 where
  refused : (ps : List Passage) → AllRefused ps → Drains ps
  handed : (ps : List Passage) → Drains ps → Drains (handed_on ∷ ps)

-- Before the end of setup, or while the middleware hands on.
abbrev Early : Server → Type 0
unfolding server_state_middleware
Early s = (s.set_up ≡ false) ⊎ (server_state_middleware s.state ≡ handed_on)

-- From the cleanup period on.
abbrev Late : Server → Type 0
unfolding server_state_middleware
Late s =
    (s.watch ≡ exited)
    ⊎ ((s.watch ≡ in_cleanup_sleep)
        × (s.set_up ≡ true)
        × (server_state_middleware s.state ≡ preparing_shutdown))
