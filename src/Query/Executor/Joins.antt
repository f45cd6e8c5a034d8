-- ===== src/Query/Executor/Joins.antt =====
-- The two join algorithms against each other.
use jsonpy_sql.Prelude.{◌≡◌, refl, String, Bool, List, arith}
use jsonpy_sql.Python.Value.{Document}
use jsonpy_sql.Python.Result.{Result, ok}
use jsonpy_sql.Storage.Engine as Engine
use jsonpy_sql.Storage.Engine.{Engine}
use jsonpy_sql.Query.Models.{QueryPlan}
use jsonpy_sql.Query.Rows.{Rows, stop, raise, row}
use jsonpy_sql.Query.Executor.{nested_loop_join, hash_join_, probe, join}

module _ {S : Type 0} where
  nested-probe :
      (lefts : Rows) (right : String) (on : Document → Document → Result Bool) (e : Engine S)
      (rights : List Document)
      → Engine.scan right e ≡ ok rights
      → nested_loop_join lefts right on e ≡ probe on rights lefts
  unfolding nested_loop_join probe
  nested-probe stop right on e rights h = refl
  nested-probe (raise x) right on e rights h = refl
  nested-probe (row left lefts) right on e rights h =
      rw (h, nested-probe lefts right on e rights h) refl

  -- Where the right collection can be scanned, a join yields the same rows in the same order, and
  -- raises the same exception after them, whatever the plans say of the algorithm.
  pub join_strategy_lem :
      (lefts : Rows) (p q : QueryPlan) (right : String) (on : Document → Document → Result Bool)
      (e : Engine S) (rights : List Document)
      → Engine.scan right e ≡ ok rights
      → join lefts p right on e ≡ join lefts q right on e
  unfolding join hash_join_
  join_strategy_lem lefts p q right on e rights h =
      ground (arith, h, nested-probe lefts right on e rights h)
