-- ===== src/A3/Inode/Growth.antt =====
-- The direct blocks that `inode_reserve` of a3/fs/inode.c takes.
use comp.Prelude.{
  ℕ, zero, suc, ◌-◌, ◌<◌, ◌≤◌, ◌≡◌, ◌≢◌, ◌∙◌, inl, inr, refl, ap, Bool, true, false, Option, none,
  some, List, [], ◌∷◌, arith, length, get_or, ◌==◌, Bool-cases,
}
use comp.Prelude.Run.{Run, done, Returns}
use comp.A3.Bytes.{Bytes}
use comp.A3.Sectors.{Sectors}
use comp.A3.Inode.{InodeDisk, min, bytes_to_sectors}
use comp.A3.Inode.Reserve.{reserve_sector, reserve_direct, inode_reserve, zeros}

-- What a free map returns: no sector, or one that is not 0 and that can be written.
abbrev pub IsFresh : (ℕ → Type 0) → Option ℕ → Type 0
IsFresh Writable none = Unit
IsFresh Writable (some s) = (s ≢ 0) × Writable s

-- A state in which the free map returns, and its sectors can be written.
pub record IsSpace {St : Type 0} (io : Sectors St) (allocate : St → Run St (Option ℕ))
    (Writable : ℕ → Type 0) (Fine : St → Type 0) : Type 0 where
  pub allocates :
      (st : St) → Fine st → (r : Option ℕ) × IsFresh Writable r × Returns (allocate st) r Fine
  pub writes :
      (s : ℕ) (b : Bytes) (st : St)
      → Fine st
      → Writable s
      → Returns (io.buffer_cache_write s b st) tt Fine

-- The entries after `reserve_direct` for `n` of them: those that were taken stay, as do those past
-- `n`, and where there was room none of the `n` is 0.
pub record IsReserved (n : ℕ) (ps ps' : List ℕ) (ok : Bool) : Type 0 where
  pub kept : (i : ℕ) → get_or ps i 0 ≢ 0 → get_or ps' i 0 ≡ get_or ps i 0
  pub past : (i : ℕ) → n ≤ i → get_or ps' i 0 ≡ get_or ps i 0
  pub taken : (i : ℕ) → ok ≡ true → i < n → get_or ps' i 0 ≢ 0
  pub sized : length ps' ≡ length ps

module _ {St : Type 0} (io : Sectors St) (allocate : St → Run St (Option ℕ)) {Writable : ℕ → Type 0}
    {Fine : St → Type 0} (space : IsSpace io allocate Writable Fine) where
  -- An entry that is not 0 stays; one that is 0 becomes a sector, or there is none.
  reserve_sector-returns :
      (p : ℕ) (st : St)
      → Fine st
      → (r : Bool × ℕ) × ((p ≢ 0 → r.1 ≡ p) × (r.0 ≡ true → r.1 ≢ 0))
        × Returns (reserve_sector io allocate p st) r Fine
  unfolding reserve_sector
  reserve_sector-returns p st v = elim (Bool-cases (p == 0)) [
    | inr e ↦ ((true, p), ((λ ne. refl), (λ t. (ground arith))), (rw e (st, refl, v)))
    | inl e ↦
        let z : p ≡ 0 = ground arith in
        let (r, fresh, (st1, e1, v1)) = space.allocates st v in
        fresh_case p st r st1 z e e1 fresh v1
  ]
    where
      fresh_case :
          (p : ℕ) (st : St) (r : Option ℕ) (st1 : St)
          → p ≡ 0
          → (p == 0) ≡ true
          → allocate st ≡ done r st1
          → IsFresh Writable r
          → Fine st1
          → (r : Bool × ℕ) × ((p ≢ 0 → r.1 ≡ p) × (r.0 ≡ true → r.1 ≢ 0))
            × Returns (reserve_sector io allocate p st) r Fine
      fresh_case p st none st1 z e e1 fresh v1 =
          ((false, p), ((λ ne. refl), (λ t. cc)), (st1, rw (e, e1) refl, v1))
      fresh_case p st (some s) st1 z e e1 fresh v1 =
          let (st2, e2, v2) = space.writes s zeros st1 v1 fresh.1 in
          ((true, s), ((λ ne. absurd (ne z)), (λ t. fresh.0)), (st2, rw (e, e1, e2) refl, v2))

  IsReserved-cons :
      (n p p' : ℕ) (ps ps' : List ℕ) (ok : Bool)
      → (p ≢ 0 → p' ≡ p)
      → p' ≢ 0
      → IsReserved n ps ps' ok
      → IsReserved (suc n) (p ∷ ps) (p' ∷ ps') ok
  IsReserved-cons n p p' ps ps' ok keep new r = record {
    kept = kept;
    past = past;
    taken = taken;
    sized = ap suc r.sized;
  }
    where
      kept : (i : ℕ) → get_or (p ∷ ps) i 0 ≢ 0 → get_or (p' ∷ ps') i 0 ≡ get_or (p ∷ ps) i 0
      kept zero ne = keep ne
      kept (suc i) ne = r.kept i ne

      past : (i : ℕ) → suc n ≤ i → get_or (p' ∷ ps') i 0 ≡ get_or (p ∷ ps) i 0
      past zero h = absurd (omega arith)
      past (suc i) h = r.past i (omega arith)

      taken : (i : ℕ) → ok ≡ true → i < suc n → get_or (p' ∷ ps') i 0 ≢ 0
      taken zero e h = new
      taken (suc i) e h = r.taken i e (omega arith)

  IsReserved-none : (ps : List ℕ) (ok : Bool) → IsReserved 0 ps ps ok
  IsReserved-none ps ok = record {
    kept = λ i ne. refl;
    past = λ i h. refl;
    taken = λ i e h. elim h [ ];
    sized = refl;
  }

  -- The loop stops at the first entry that gets no sector.
  IsReserved-stop :
      (n p p' : ℕ) (ps : List ℕ) → (p ≢ 0 → p' ≡ p) → IsReserved (suc n) (p ∷ ps) (p' ∷ ps) false
  IsReserved-stop n p p' ps keep = record {
    kept = kept;
    past = past;
    taken = λ i e h. absurd (false_ne_true e);
    sized = refl;
  }
    where
      false_ne_true : false ≡ true → ⊥
      false_ne_true e = cc

      kept : (i : ℕ) → get_or (p ∷ ps) i 0 ≢ 0 → get_or (p' ∷ ps) i 0 ≡ get_or (p ∷ ps) i 0
      kept zero ne = keep ne
      kept (suc i) ne = refl

      past : (i : ℕ) → suc n ≤ i → get_or (p' ∷ ps) i 0 ≡ get_or (p ∷ ps) i 0
      past zero h = absurd (omega arith)
      past (suc i) h = refl

  direct-step :
      (n p p' : ℕ) (ps ps' : List ℕ) (ok : Bool) (st st1 st2 : St)
      → reserve_sector io allocate p st ≡ done (true, p') st1
      → reserve_direct io allocate n ps st1 ≡ done (ok, ps') st2
      → reserve_direct io allocate (suc n) (p ∷ ps) st ≡ done (ok, p' ∷ ps') st2
  unfolding reserve_direct
  direct-step n p p' ps ps' ok st st1 st2 e e1 = rw (e, e1) refl

  direct-stop :
      (n p p' : ℕ) (ps : List ℕ) (st st1 : St)
      → reserve_sector io allocate p st ≡ done (false, p') st1
      → reserve_direct io allocate (suc n) (p ∷ ps) st ≡ done (false, p' ∷ ps) st1
  unfolding reserve_direct
  direct-stop n p p' ps st st1 e = rw e refl

  -- What a reservation of `n` of the entries `ps` returns.
  abbrev pub Reserves : ℕ → List ℕ → Run St (Bool × List ℕ) → Type 0
  Reserves n ps run = (r : Bool × List ℕ) × IsReserved n ps r.1 r.0 × Returns run r Fine

  reserve_direct-IsReserved :
      (n : ℕ) (ps : List ℕ) (st : St)
      → n ≤ length ps
      → Fine st
      → Reserves n ps (reserve_direct io allocate n ps st)
  reserve_direct-IsReserved zero ps st h v =
      ((true, ps), IsReserved-none ps true, (st, (unfold reserve_direct in refl), v))
  reserve_direct-IsReserved (suc n) [] st h v = absurd (omega arith)
  reserve_direct-IsReserved (suc n) (p ∷ ps) st h v =
      let (r, (keep, new), (st1, e1, v1)) = reserve_sector-returns p st v in
      let ((ok, ps'), w, (st2, e2, v2)) = reserve_direct-IsReserved n ps st1 (omega arith) v1 in
      elim (Bool-cases r.0) [
        | inl t ↦ (
          (ok, r.1 ∷ ps'),
          IsReserved-cons n p r.1 ps ps' ok keep (new t) w,
          (
            st2,
            direct-step n p r.1 ps ps' ok st st1 st2 (e1 ∙ ap (λ (b : Bool). done (b, r.1) st1) t)
                e2,
            v2,
          ),
        )
        | inr t ↦ (
          (false, r.1 ∷ ps),
          IsReserved-stop n p r.1 ps keep,
          (st1, direct-stop n p r.1 ps st st1 (e1 ∙ ap (λ (b : Bool). done (b, r.1) st1) t), v1),
        )
      ]

  reserve-step :
      (d : InodeDisk) (size num : ℕ) (ok : Bool) (ps' : List ℕ) (st st1 : St)
      → bytes_to_sectors size ≡ num
      → min num 123 ≡ num
      → reserve_direct io allocate num d.direct_blocks st ≡ done (ok, ps') st1
      → inode_reserve io allocate d size st ≡ done (ok, record d { direct_blocks = ps' }) st1
  unfolding inode_reserve
  reserve-step d size num false ps' st st1 e m r = rw (e, m, r) refl
  reserve-step d size num true ps' st st1 e m r =
      let z : (num - num == 0) ≡ true = ground arith in rw (e, m, r, z) refl

  min-small : (n : ℕ) → n ≤ 123 → min n 123 ≡ n
  unfolding min
  min-small n h = ground arith

  -- Where the free map returns, with no sector or one that is not 0 and can be written:
  -- `inode_reserve` for a length of at most 123 sectors returns; the direct blocks that the inode
  -- had and those past the length stay, the index blocks stay, and if it succeeds each block within
  -- the length is a sector that is not 0.
  pub inode_reserve-IsReserved :
      (d : InodeDisk) (size : ℕ) (st : St)
      → length d.direct_blocks ≡ 123
      → bytes_to_sectors size ≤ 123
      → Fine st
      → (r : Bool × List ℕ) × IsReserved (bytes_to_sectors size) d.direct_blocks r.1 r.0
        × Returns (inode_reserve io allocate d size st) (r.0, record d { direct_blocks = r.1 }) Fine
  inode_reserve-IsReserved d size st n small v =
      let num = bytes_to_sectors size in
      let ((ok, ps'), w, (st1, e1, v1)) =
        reserve_direct-IsReserved num d.direct_blocks st (omega (arith, n)) v in
      ((ok, ps'), w, (st1, reserve-step d size num ok ps' st st1 refl (min-small num small) e1, v1))
