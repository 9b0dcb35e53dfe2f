-- ===== src/Tests/AuthRefresh.antt =====
-- The refresh of a session in the small system, from a token that it does not draw.
use client_server_with_lb_de.Base.{none, some, ◌==◌, if◌then◌else◌}
use client_server_with_lb_de.Auth.{AuthRequest, LoginResponseData}
use client_server_with_lb_de.Auth.World.{Stored}
use client_server_with_lb_de.Auth.Handler.{handle_refresh}
use client_server_with_lb_de.Tests.AuthSystem.{Memory, memory_system}
use client_server_with_lb_de.Tests.Auth.{request_of, day, with_ann, ann_session, login_answer}

abbrev old_stored : Stored
old_stored = record {
  session = record ann_session { token = "token-C" };
  drops_at = some 86400000000003;
}

abbrev with_old : Memory
with_old = record with_ann {
  sessions = λ token. if token == "token-C" then some old_stored else none;
}

abbrev refresh_request : AuthRequest
refresh_request = record (request_of "refresh") { token = "token-C" }

abbrev refresh_answer : LoginResponseData
refresh_answer = (record login_answer { expires_at = 86400 })

abbrev renewed : Memory
renewed = (handle_refresh memory_system day 3 refresh_request with_old).1
