-- ===== src/Http/Server.antt =====
-- The states of the server in transport/http/http.go: Serve with setup, respondToSigterm, which waits
-- for a signal beside them, and serverStateMiddleware, which every request passes.
--
-- The state is read and written without a lock; each reading and writing is taken to be one step, as
-- is the sleep between two of them. A request has a step in which it meets the middleware, and one in
-- which its handler returns: the handlers between the two are counted. The routes are not modelled.
pub mod Laws
use go_espn_api.Prelude.{ℕ, suc, ◌≡◌, Bool, true, false, List, [], ◌∷◌, ◌++◌}

-- ServerState, with the zero value that the field has before setup.
pub data ServerState : Type 0 where
  unset : ServerState
  ready : ServerState
  in_grace_period : ServerState
  in_cleanup_period : ServerState

-- What serverStateMiddleware does with a request: it hands it on, or it answers 503, or neither.
pub data Passage : Type 0 where
  handed_on : Passage
  preparing_shutdown : Passage
  unanswered : Passage

-- serverStateMiddleware.
unfoldable pub server_state_middleware : ServerState → Passage
server_state_middleware unset = unanswered
server_state_middleware ready = handed_on
server_state_middleware in_grace_period = handed_on
server_state_middleware in_cleanup_period = preparing_shutdown

-- Where respondToSigterm stands: before its signal, in one of its two sleeps, or behind os.Exit.
pub data Watch : Type 0 where
  awaiting : Watch
  in_grace_sleep : Watch
  in_cleanup_sleep : Watch
  exited : Watch

-- The process has not exited.
abbrev pub IsRunning : Watch → Type 0
IsRunning exited = ⊥
IsRunning _ = Unit

-- The server stands in a state of its own field, in a place of the watch, in Serve before or behind
-- setup, and has a number of handlers that run.
pub record Server : Type 0 where
  pub state : ServerState
  pub watch : Watch
  pub set_up : Bool
  pub running : ℕ

-- Serve: setup starts the watch, and only then sets the state.
abbrev pub new_server : Server
new_server = record { state = unset; watch = awaiting; set_up = false; running = 0 }

-- A request that is handed on has its handler running.
abbrev pub more_running : Passage → ℕ → ℕ
more_running handed_on n = suc n
more_running preparing_shutdown n = n
more_running unanswered n = n

-- A step of the process, given whether its environment is development, with the passage of a request
-- where one meets the middleware. Serve accepts no request before the end of setup. Nothing happens
-- once the process has exited; the handlers that run then never return.
pub data Move (development : Bool) (s : Server) : List Passage → Server → Type 0 where
  become_ready :
      IsRunning s.watch
      → s.set_up ≡ false
      → Move development s [] (record s { state = ready; set_up = true })
  request :
      IsRunning s.watch
      → s.set_up ≡ true
      → Move development s
          (server_state_middleware s.state ∷ [])
          (record s { running = more_running (server_state_middleware s.state) s.running })
  handled :
      (n : ℕ)
      → IsRunning s.watch
      → s.running ≡ suc n
      → Move development s [] (record s { running = n })
  shut_down_now :
      development ≡ true → s.watch ≡ awaiting → Move development s [] (record s { watch = exited })
  enter_grace :
      development ≡ false
      → s.watch ≡ awaiting
      → Move development s [] (record s { state = in_grace_period; watch = in_grace_sleep })
  enter_cleanup :
      s.watch ≡ in_grace_sleep
      → Move development s [] (record s { state = in_cleanup_period; watch = in_cleanup_sleep })
  exit : s.watch ≡ in_cleanup_sleep → Move development s [] (record s { watch = exited })

-- Steps one behind the other, and the passages of all the requests between.
pub data Course (development : Bool) : Server → List Passage → Server → Type 0 where
  done : (s : Server) → Course development s [] s
  next :
      (s t u : Server) (now later : List Passage)
      → Move development s now t
      → Course development t later u
      → Course development s (now ++ later) u
