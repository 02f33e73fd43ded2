-- ===== src/Web/Mux/Served.antt =====
-- A server of internal/web/server/server.go at work: requests, one after the other.
use go_auth_refresh_template.Base.{ℕ, ◌≤◌, some, List, ◌≡◌, All}
use go_auth_refresh_template.World.{World, Action}
use go_auth_refresh_template.World.Invariants.{Keeps, Since, still}
use go_auth_refresh_template.Database.{Database}
use go_auth_refresh_template.Web.Http.{Request, Response}
use go_auth_refresh_template.Web.Server.{Route}
use go_auth_refresh_template.Web.Mux.{dispatch}
use go_auth_refresh_template.Web.Mux.Choices.{dispatch-All}

-- The worlds before and after some requests, each of them any request that a handler runs for, on the
-- world that the one before it left. Between two requests the outside may go on to later draws, and with
-- it the clocks.
pub data Served (routes : List Route) : World → World → Type 0 where
  idle : {w : World} → Served routes w w
  wait :
      {w w₁ w₂ : World}
      → w.db ≡ w₁.db
      → w.draws ≤ w₁.draws
      → Served routes w₁ w₂
      → Served routes w w₂
  next :
      {w w₂ : World} {m : Action Response} (r : Request)
      → dispatch routes r ≡ some m
      → Served routes (m w).1 w₂
      → Served routes w w₂

-- What every route keeps of the tables is kept over all the requests.
pub Served-Since :
    (start : ℕ) (P : Database → Type 0) {routes : List Route} {w w₂ : World}
    → All (λ route. (r : Request) → Keeps (Since start P) (route.handler r)) routes
    → Served routes w w₂
    → Since start P w
    → Since start P w₂
Served-Since start P a idle q = q
Served-Since start P a (wait {w} {w₁} same later s) q =
    Served-Since start P a s (still w w₁ same later q)
Served-Since start P {routes} a (next {w} {m = m} r runs s) q =
    let (route, k, is_for, same) = dispatch-All _ routes r {m = m} a runs in
    Served-Since start P a s (rw same ((k _).kept w q))
