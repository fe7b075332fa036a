-- ===== src/Gate/Joined.antt =====
-- internal/gate/body.go, `joins`: what holds of a document in which it finds nothing.
use yoke.Gate.Stopping.{IsAdding}
use yoke.Prelude.{◌||◌, ◌≡◌, String, List, [], ◌∷◌, ◌++◌, arith, refl}
use yoke.Gate.{Deployment, Finding, refused, any_refuses}
use yoke.Gate.Joins.{adds}

any_refuses-append :
    (xs ys : List Finding) → any_refuses (xs ++ ys) ≡ (any_refuses xs || any_refuses ys)
any_refuses-append [] ys = refl
any_refuses-append (x ∷ xs) ys = ground (arith, any_refuses-append xs ys)

-- A phase that adds what it finds to the report is one that a pass may run.
pub adds-IsAdding :
    (name : String) (f : Deployment → List Finding)
    → IsAdding (record { name = name; run = adds f })
unfolding refused
adds-IsAdding name f c = ground (arith, any_refuses-append c.report.findings (f c.state))
