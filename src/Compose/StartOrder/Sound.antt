-- ===== src/Compose/StartOrder/Sound.antt =====
-- What an order that `startOrder` returns is.
use thrive.Prelude.{suc, ◌≡◌, List, [], arith, Text, contains, keys, IsNodup, length}
use thrive.Compose.{ComposeFile}
use thrive.Compose.StartOrder.{Search, ok, visit, start, start_order}
use thrive.Compose.StartOrder.Loop.{IsOrdered, Inv-start, visit-Extends, visit_all-Extends}

-- Every service once, behind all that it depends on, and nothing else.
pub record IsStartOrder (cf : ComposeFile) (order : List Text) : Type 0 where
  pub ordered : IsOrdered cf [] order
  pub once : IsNodup order
  pub same : (a : Text) → contains order a ≡ contains (keys cf.services) a

-- Whenever `startOrder` returns an order, it lists each service of the file exactly once, no other
-- name, and every service behind all the services that it depends on.
pub start_order-IsStartOrder :
    (cf : ComposeFile) (t : Search) → start_order cf ≡ ok t → IsStartOrder cf t.result
unfolding start_order
start_order-IsStartOrder cf t e =
    let fuel = suc (length cf.services) in
    let (ext, all) =
      visit_all-Extends cf (visit cf fuel) (visit-Extends cf fuel) (keys cf.services) start t
        (Inv-start cf) e in
    record {
      ordered = ext.inv.ordered;
      once = ext.inv.once;
      same = λ a. ground (arith, ext.inv.known a, all a);
    }
