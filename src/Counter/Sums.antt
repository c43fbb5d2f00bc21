-- ===== src/Counter/Sums.antt =====
-- What the parent reads.
use mathlib.Core.Path.{subst}
use native.Mathlib.Decide.{dec_lt}
use mathlib.Core.List.{append_assoc}
use c_study.Base.{
  ℕ, zero, suc, ◌+◌, ◌≤◌, ◌<◌, ◌≡◌, refl, ◌⊎◌, inl, inr, sym, ap, ◌∙◌, List, [], ◌∷◌, ◌++◌, arith,
}
use c_study.Counter.Processes.{
  limit, Child, writing, exited, Parent, sleeping, reading, finished, System, start, Step, write,
  refuse, finish, wake, read, Reach, here, next,
}

unfoldable pub sum : List ℕ → ℕ
sum [] = 0
sum (n ∷ ns) = n + sum ns

-- What the parent has taken out of the counter.
abbrev pub taken : Parent → ℕ
taken sleeping = 0
taken reading = 0
taken (finished num) = num

-- What the child has not written.
abbrev pub Unwritten : Child → List ℕ → Type 0
Unwritten (writing args) rest = rest ≡ args
Unwritten (exited zero) rest = rest ≡ []
Unwritten (exited (suc k)) rest =
    (num : ℕ) × (later : List ℕ) × (rest ≡ num ∷ later) × (limit ≤ num)

-- A read never gives 0, or more than the counter can hold.
abbrev pub Positive : Parent → Type 0
Positive sleeping = Unit {0}
Positive reading = Unit {0}
Positive (finished num) = (1 ≤ num) × (num < limit)

-- The arguments are those that were written before the read, those that were written after it, and those
-- that were not written. The first add up to what was taken, the second to what the counter has.
record Balanced (args : List ℕ) (s : System) : Type 0 where
  before : List ℕ
  after : List ℕ
  rest : List ℕ
  split : args ≡ before ++ (after ++ rest)
  unwritten : Unwritten s.child rest
  took : taken s.parent ≡ sum before
  held : s.efd ≡ sum after
  small : s.efd < limit
  positive : Positive s.parent

sum-append : (ns ms : List ℕ) → sum (ns ++ ms) ≡ sum ns + sum ms
unfolding sum
sum-append [] ms = omega arith
sum-append (n ∷ ns) ms = omega (arith, sum-append ns ms)

start-Balanced : (args : List ℕ) → Balanced args (start args)
unfolding sum
start-Balanced args = record {
  before = [];
  after = [];
  rest = args;
  split = refl;
  unwritten = refl;
  took = refl;
  held = refl;
  small = omega arith;
  positive = tt;
}

Unwritten-at : (c d : Child) (rest : List ℕ) → c ≡ d → Unwritten c rest → Unwritten d rest
Unwritten-at c d rest e u = subst (λ x. Unwritten x rest) e u

taken-at : (p q : Parent) (ns : List ℕ) → p ≡ q → taken p ≡ sum ns → taken q ≡ sum ns
taken-at p q ns e h = ap taken (sym e) ∙ h

Step-Balanced : {args : List ℕ} {s t : System} → Balanced args s → Step s t → Balanced args t
unfolding sum
Step-Balanced {args} {s} b (write {num} {args = later} e h) =
    let u = Unwritten-at s.child (writing (num ∷ later)) b.rest e b.unwritten in
    let held = b.held in
    record {
      before = b.before;
      after = b.after ++ num ∷ [];
      rest = later;
      split =
          b.split
          ∙ ap (λ l. b.before ++ l)
              (ap (λ l. b.after ++ l) u ∙ sym (append_assoc b.after (num ∷ []) later));
      unwritten = refl;
      took = b.took;
      held = omega (arith, sum-append b.after (num ∷ []));
      small = h;
      positive = b.positive;
    }
Step-Balanced {args} {s} b (refuse {num} {args = later} e h) =
    let u = Unwritten-at s.child (writing (num ∷ later)) b.rest e b.unwritten in
    record {
      before = b.before;
      after = b.after;
      rest = b.rest;
      split = b.split;
      unwritten = (num, later, u, h);
      took = b.took;
      held = b.held;
      small = b.small;
      positive = b.positive;
    }
Step-Balanced {args} {s} b (finish e) =
    let u = Unwritten-at s.child (writing []) b.rest e b.unwritten in
    record {
      before = b.before;
      after = b.after;
      rest = b.rest;
      split = b.split;
      unwritten = u;
      took = b.took;
      held = b.held;
      small = b.small;
      positive = b.positive;
    }
Step-Balanced {args} {s} b (wake e) = record {
  before = b.before;
  after = b.after;
  rest = b.rest;
  split = b.split;
  unwritten = b.unwritten;
  took = taken-at s.parent sleeping b.before e b.took;
  held = b.held;
  small = b.small;
  positive = tt;
}
Step-Balanced {args} {s} b (read e h) =
    let nothing = taken-at s.parent reading b.before e b.took in
    let held = b.held in
    record {
      before = b.before ++ b.after;
      after = [];
      rest = b.rest;
      split = b.split ∙ sym (append_assoc b.before b.after b.rest);
      unwritten = b.unwritten;
      took = omega (arith, sum-append b.before b.after);
      held = refl;
      small = omega arith;
      positive = (h, b.small);
    }

Reach-Balanced : {args : List ℕ} {s : System} → Reach args s → Balanced args s
Reach-Balanced {args} here = start-Balanced args
Reach-Balanced (next r mv) = Step-Balanced (Reach-Balanced r) mv

-- In every reachable state in which the parent has read a number, that number is at least 1 and below
-- 2^64 - 1, and it is the sum of the arguments from the first one up to some place: those that the child had
-- written by then, which need not be all of them.
pub read-sum :
    {args : List ℕ} {s : System} (num : ℕ)
    → Reach args s
    → s.parent ≡ finished num
    → (before : List ℕ) × (rest : List ℕ) × (args ≡ before ++ rest)
      × (num ≡ sum before)
      × (1 ≤ num)
      × (num < limit)
read-sum {args} {s} num r e =
    let b = Reach-Balanced r in
    (
      b.before,
      b.after ++ b.rest,
      b.split,
      taken-at s.parent (finished num) b.before e b.took,
      (subst Positive e b.positive).0,
      (subst Positive e b.positive).1,
    )

-- Both processes are at their ends.
pub record Ended (s : System) : Type 0 where
  pub status : ℕ
  pub num : ℕ
  pub child : s.child ≡ exited status
  pub parent : s.parent ≡ finished num

-- The parent waits for a number that nobody writes.
pub record ParentHangs (s : System) : Type 0 where
  pub status : ℕ
  pub child : s.child ≡ exited status
  pub parent : s.parent ≡ reading
  pub empty : s.efd ≡ 0

-- The child waits for a read that nobody makes.
pub record ChildHangs (s : System) : Type 0 where
  pub num : ℕ
  pub rest : List ℕ
  pub got : ℕ
  pub child : s.child ≡ writing (num ∷ rest)
  pub parent : s.parent ≡ finished got
  pub room : limit ≤ s.efd + num

Parent-cases : (p : Parent) → (p ≡ sleeping) ⊎ ((p ≡ reading) ⊎ ((num : ℕ) × (p ≡ finished num)))
Parent-cases sleeping = inl refl
Parent-cases reading = inr (inl refl)
Parent-cases (finished num) = inr (inr (num, refl))

Child-cases :
    (c : Child)
    → (c ≡ writing [])
      ⊎ (((num : ℕ) × (rest : List ℕ) × (c ≡ writing (num ∷ rest)))
          ⊎ ((status : ℕ) × (c ≡ exited status)))
Child-cases (writing []) = inl refl
Child-cases (writing (num ∷ rest)) = inr (inl (num, rest, refl))
Child-cases (exited status) = inr (inr (status, refl))

-- In a state of which no step is possible, both processes have ended, or the parent waits in `read` after the
-- child has ended and left the counter at 0, or the child waits in `write` after the parent has read.
stuck_lem : (s : System) → ((t : System) → ¬ Step s t) → Ended s ⊎ (ParentHangs s ⊎ ChildHangs s)
stuck_lem s stuck = elim (Parent-cases s.parent) [
  | inl e ↦ absurd (stuck _ (wake e))
  | inr (inl e) ↦ elim (dec_lt 0 s.efd) [
    | yes h ↦ absurd (stuck _ (read e (omega arith)))
    | no h ↦ elim (Child-cases s.child) [
      | inl c ↦ absurd (stuck _ (finish c))
      | inr (inl (num, rest, c)) ↦ elim (dec_lt num limit) [
        | yes l ↦ absurd (stuck _ (write c (omega arith)))
        | no l ↦ absurd (stuck _ (refuse c (omega arith)))
      ]
      | inr (inr (status, c)) ↦
          inr (inl (record { status = status; child = c; parent = e; empty = omega arith }))
    ]
  ]
  | inr (inr (got, e)) ↦ elim (Child-cases s.child) [
    | inl c ↦ absurd (stuck _ (finish c))
    | inr (inl (num, rest, c)) ↦ elim (dec_lt (s.efd + num) limit) [
      | yes l ↦ absurd (stuck _ (write c l))
      | no l ↦ inr (
          inr (record {
            num = num;
            rest = rest;
            got = got;
            child = c;
            parent = e;
            room = omega arith;
          }))
    ]
    | inr (inr (status, c)) ↦ inl (record { status = status; num = got; child = c; parent = e })
  ]
]
