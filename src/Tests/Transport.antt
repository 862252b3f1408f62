-- ===== src/Tests/Transport.antt =====
-- Authentication and sessions at concrete inputs.
use custom_mcps.Prelude.{
  String, true, false, none, some, List, [], ◌∷◌, ◌≡◌, ◌≢◌, refl, inl, arith, ◌==◌, if◌then◌else◌,
  All, eq_iff, ℕ, nat_eq,
}
use custom_mcps.Prelude.Maps.{get, put}
use custom_mcps.Prelude.Text.{strip_prefix, trim_space}
use custom_mcps.Json.{null, encoded}
use custom_mcps.Context.{Context}
use custom_mcps.Http.{HttpRequest}
use custom_mcps.World.{World}
use custom_mcps.Auth.{Env, BearerAuth, bearer_with_tokens, authenticate, extract_token}
use custom_mcps.Auth.Laws.{authenticate_refuses, Refused}
use custom_mcps.Transport.Session.{
  Session, Manager, create, get_session, delete_session, add_writer, update, load, empty_manager,
}
use custom_mcps.Transport.Session.Laws.{IsFiled, start, next, creates, Reach-IsFiled}
use custom_mcps.Transport.Session.Delivery.{delete_session_lem, delete_session-add_writer}

abbrev pub nowhere : Context
nowhere = record { values = [] }

abbrev pub world : World
world = record { initialized = false; log = []; clock = λ n. n; reads = 0 }

abbrev pub no_env : Env
no_env name = ""

abbrev pub guard : BearerAuth
guard = bearer_with_tokens ("s3cret-token" ∷ [])

abbrev pub ask : String → List (String × String) → HttpRequest
ask method headers = record {
  method = method;
  path = "/mcp";
  headers = headers;
  query = [];
  remote_addr = "10.0.0.1:999";
  body = some (encoded null);
}

abbrev with_token : HttpRequest
with_token = ask "POST" (("Authorization", "Bearer  s3cret-token ") ∷ [])

abbrev pub without_token : HttpRequest
without_token = ask "POST" []

token_read : extract_token with_token ≡ "s3cret-token"
unfolding extract_token strip_prefix trim_space get
token_read = refl

no_token_read : extract_token without_token ≡ ""
unfolding extract_token strip_prefix get
no_token_read = refl

authenticate_refuses_example : Refused nowhere (authenticate guard no_env nowhere without_token)
authenticate_refuses_example =
    authenticate_refuses guard no_env nowhere without_token (inl no_token_read)

-- One session, "s", at the pointer 0.
abbrev pub one_session : Manager
one_session = record {
  sessions = ("s", 0) ∷ [];
  heap = record { id = "s"; writers = []; created = 5 } ∷ [];
}

abbrev the_session : Session
the_session = record { id = "s"; writers = []; created = 5 }

created_once : (create "s" 5 empty_manager).1 ≡ one_session
unfolding create put
created_once = refl

pub one_session-IsFiled : IsFiled one_session
unfolding load
one_session-IsFiled = record { once = (tt, tt); held = ((the_session, refl, refl), tt) }

found : get_session "s" one_session ≡ some 0
unfolding get_session get
found = refl

pointed : load 0 one_session.heap ≡ some the_session
unfolding load
pointed = refl

Reach-IsFiled_example : IsFiled (create "s" 5 empty_manager).1
Reach-IsFiled_example = Reach-IsFiled (next start (creates "s" 5))

-- A session with two writers, and a session beside it.
abbrev busy_session : Session
busy_session = record {
  id = "s";
  writers =
      record { conn = 1; connected = true; sent = []; done = false; closed = true }
      ∷ record {
        conn = 2;
        connected = true;
        sent = encoded null ∷ [];
        done = false;
        closed = false;
      }
      ∷ [];
  created = 5;
}

abbrev two_sessions : Manager
two_sessions = record {
  sessions = ("s", 0) ∷ ("t", 1) ∷ [];
  heap = busy_session ∷ record { id = "t"; writers = []; created = 6 } ∷ [];
}

two_sessions-IsFiled : IsFiled two_sessions
unfolding load
two_sessions-IsFiled = record {
  once = ((ground (arith, eq_iff "t" "s"), tt), (tt, tt));
  held = (
    (busy_session, refl, refl),
    ((record { id = "t"; writers = []; created = 6 }, refl, refl), tt),
  );
}

delete_session_lem_example :
    (get_session "t" (delete_session "s" two_sessions)
      ≡ (if "s" == "t" then none else get_session "t" two_sessions))
    × (load 0 (delete_session "s" two_sessions).heap
        ≡ some (record busy_session {
          writers =
              record { conn = 1; connected = true; sent = []; done = true; closed = true }
              ∷ record {
                conn = 2;
                connected = true;
                sent = encoded null ∷ [];
                done = true;
                closed = true;
              }
              ∷ [];
        }))
    × ((q : ℕ) (u : Session)
        → load q two_sessions.heap ≡ some u
        → nat_eq 0 q ≡ false
        → load q (delete_session "s" two_sessions).heap ≡ some u)
unfolding load get_session get
delete_session_lem_example =
    delete_session_lem two_sessions "s" "t" 0 busy_session two_sessions-IsFiled refl refl

delete_session-add_writer_example :
    All (λ e. e.1 ≢ 0) (delete_session "s" one_session).sessions
    × (load 0 (update 0 (add_writer 3) (delete_session "s" one_session).heap)
        ≡ some (record the_session {
          writers =
              record { conn = 3; connected = true; sent = []; done = false; closed = false } ∷ [];
        }))
delete_session-add_writer_example =
    delete_session-add_writer one_session "s" 0 3 the_session one_session-IsFiled found pointed refl
