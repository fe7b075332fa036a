-- ===== src/Arbiter/Judging.antt =====
-- internal/core/interfaces/arbitration.go, `recompute`: what the loop over the channels leaves.
use yoke.Prelude.{
  ℕ, inr, inl, Option-cases, ◌≡◌, refl, String, Option, none, some, List, [], ◌∷◌, if◌then◌else◌,
  get, put, string_discrete, contains, get-put, arith,
}
use yoke.Arbiter.{Arbitrated, Channels, Edge, judge, judged, judge_all}

-- What a channel becomes, where it is one.
abbrev pub settled : Option Arbitrated → Option Edge → Option Arbitrated
settled none e = none
settled (some c) e = some (judged c e)

-- Two maps in which the same channels hold.
pub judge-put :
    (m : Channels) (n : String) (c : Arbitrated) (e : Option Edge) (es : List Edge) (x : String)
    → get string_discrete n m ≡ some c
    → judge (put string_discrete n (judged c e) m) es x ≡ judge m es x
unfolding judge
judge-put m n c e [] x h = refl
judge-put m n c e (d ∷ es) x h =
    ground (arith, judge-put m n c e es x h, get-put string_discrete n d.prevails (judged c e) m)

pub get-judge_all :
    (now : ℕ) (es : List Edge) (ns : List String) (m : Channels) (x : String)
    → get string_discrete x (judge_all now es ns m).0 ≡ (
        if contains ns x
        then settled (get string_discrete x m) (judge m es x)
        else get string_discrete x m)
unfolding judge_all contains
get-judge_all now es [] m x = refl
get-judge_all now es (n ∷ ns) m x = elim (Option-cases (get string_discrete n m)) [
  | inl e ↦ ground (arith, get-judge_all now es ns m x)
  | inr (c, e) ↦
      let m' = put string_discrete n (judged c (judge m es n)) m in
      ground (
        arith,
        get-judge_all now es ns m' x,
        judge-put m n c (judge m es n) es x,
        get-put string_discrete n x (judged c (judge m es n)) m,
      )
]
