-- ===== src/Uv/Account.antt =====
-- The blocks that the server has allocated and not released.
use mathlib.Core.Path.{subst}
use c_study.Base.{
  ℕ, ◌+◌, ◌*◌, ◌≤◌, ◌≡◌, refl, ap, List, [], ◌∷◌, ◌++◌, some, arith, length, length-append,
}
use c_study.Uv.Server.{Request, Message, Server, start, free, take_request}
use c_study.Uv.Blocks.{
  hit_self, occurrences, occurrences-cons, occurrences-nil, release_lem, owned, owned-nil,
  owned-snoc, take_request-owned,
}

-- The allocated blocks are those in `extra`, those of the pending requests, and `lost` others.
pub record Accounted (lost : ℕ) (extra : List ℕ) (s : Server) : Type 0 where
  others : List ℕ
  count : length others ≡ lost
  pub size : length s.live ≡ length extra + (lost + 2 * length s.pending)
  pub blocks :
      (a : ℕ)
      → occurrences a s.live
        ≡ occurrences a extra + (occurrences a others + occurrences a (owned s.pending))

-- A block in `extra` can be released.
pub free-Accounted :
    (lost p : ℕ) (extra : List ℕ) (s : Server)
    → Accounted lost (p ∷ extra) s
    → (live : List ℕ) × (free (some p) s ≡ some (record s { live = live }))
      × Accounted lost extra (record s { live = live })
unfolding free
free-Accounted lost p extra s v =
    let there : 1 ≤ occurrences p s.live =
      omega (arith, v.blocks p, occurrences-cons p p extra, hit_self p) in
    let (live, e, l, c) = release_lem p s.live there in
    let size = v.size in
    (
      live,
      rw (e, free) refl,
      record {
        others = v.others;
        count = v.count;
        size = omega arith;
        blocks = λ a. omega (arith, v.blocks a, c a, occurrences-cons a p extra);
      },
    )

-- A block that is allocated goes to `extra`.
pub malloc-Accounted :
    (lost p : ℕ) (extra : List ℕ) (s : Server)
    → Accounted lost extra s
    → Accounted lost (p ∷ extra) (record s { live = p ∷ s.live })
malloc-Accounted lost p extra s v =
    let size = v.size in
    record {
      others = v.others;
      count = v.count;
      size = omega arith;
      blocks =
          λ a. omega (arith, v.blocks a, occurrences-cons a p extra, occurrences-cons a p s.live);
    }

-- A block in `extra` can be forgotten.
pub forget-Accounted :
    (lost p : ℕ) (extra : List ℕ) (s : Server)
    → Accounted lost (p ∷ extra) s
    → Accounted (lost + 1) extra s
forget-Accounted lost p extra s v =
    let size = v.size in
    let count = v.count in
    record {
      others = p ∷ v.others;
      count = omega arith;
      size = omega arith;
      blocks =
          λ a. omega (arith, v.blocks a, occurrences-cons a p extra, occurrences-cons a p v.others);
    }

-- Two blocks in `extra` become those of a new request.
pub request-Accounted :
    (lost : ℕ) (r : Request) (extra : List ℕ) (s : Server) (sent : List Message)
    → Accounted lost (r.buf ∷ r.req ∷ extra) s
    → Accounted lost extra (record s { pending = s.pending ++ r ∷ []; sent = sent })
request-Accounted lost r extra s sent v =
    let size = v.size in
    record {
      others = v.others;
      count = v.count;
      size = omega (arith, length-append s.pending (r ∷ []));
      blocks = λ a. omega (
        arith,
        v.blocks a,
        owned-snoc a s.pending r,
        occurrences-cons a r.buf (r.req ∷ extra),
        occurrences-cons a r.req extra,
      );
    }

-- A request that is taken out leaves its blocks in `extra`.
pub taken-Accounted :
    (lost index : ℕ) (s : Server) {r : Request} {rest : List Request}
    → Accounted lost [] s
    → take_request index s.pending ≡ some (r, rest)
    → Accounted lost (r.buf ∷ r.req ∷ []) (record s { pending = rest })
taken-Accounted lost index s {r} {rest} v e =
    let (l, c) = take_request-owned index s.pending {r = r} {rest = rest} e in
    let size = v.size in
    record {
      others = v.others;
      count = v.count;
      size = omega arith;
      blocks = λ a. omega (
        arith,
        v.blocks a,
        c a,
        occurrences-nil a,
        occurrences-cons a r.buf (r.req ∷ []),
        occurrences-cons a r.req [],
      );
    }

pub Accounted-eq :
    (lost lost' : ℕ) (extra : List ℕ) (s : Server)
    → lost ≡ lost'
    → Accounted lost extra s
    → Accounted lost' extra s
Accounted-eq lost lost' extra s e v = subst (λ n. Accounted n extra s) e v

pub start-Accounted : Accounted 0 [] start
start-Accounted = record {
  others = [];
  count = refl;
  size = omega arith;
  blocks = λ a. omega (arith, occurrences-nil a, ap (occurrences a) owned-nil);
}
