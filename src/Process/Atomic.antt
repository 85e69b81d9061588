-- ===== src/Process/Atomic.antt =====
-- Replacing a file as a whole.
use nginx_front_back_end_dem.Prelude.{
  ◌≡◌, ◌≢◌, ap, inl, inr, true, Option, none, some, Text, codes, arith, Option-cases, Bool-cases,
  length, length-append, ℕ,
}
use nginx_front_back_end_dem.Process.{Sys, tmp_of, promote, fill, write_file_atomic}

-- What POSIX and the C++ library document of the calls on files.
pub record IsFileSystem {W : Type 0} (sys : Sys W) : Type 0 where
  pub open_frame :
      (p q : Text) (w : W) → q ≢ p → sys.read_file q (sys.open_trunc p w).1 ≡ sys.read_file q w
  pub write_frame :
      (p q c : Text) (w : W) → q ≢ p → sys.read_file q (sys.write_flush p c w).1 ≡ sys.read_file q w
  pub write_done :
      (p c : Text) (w : W)
      → (sys.open_trunc p w).0 ≡ true
      → (sys.write_flush p c (sys.open_trunc p w).1).0 ≡ true
      → sys.read_file p (sys.write_flush p c (sys.open_trunc p w).1).1 ≡ some c
  pub rename_done :
      (p q : Text) (w : W)
      → (sys.rename p q w).0 ≡ none
      → sys.read_file q (sys.rename p q w).1 ≡ sys.read_file p w
  pub rename_frame :
      (p q r : Text) (w : W)
      → r ≢ p
      → r ≢ q
      → sys.read_file r (sys.rename p q w).1 ≡ sys.read_file r w
  pub rename_failed :
      (p q r error : Text) (w : W)
      → (sys.rename p q w).0 ≡ some error
      → sys.read_file r (sys.rename p q w).1 ≡ sys.read_file r w
  pub remove_frame :
      (p q : Text) (w : W) → q ≢ p → sys.read_file q (sys.remove p w) ≡ sys.read_file q w

path-ne-tmp_of : (path : Text) → path ≢ tmp_of path
unfolding tmp_of
path-ne-tmp_of path e = omega (arith, ap (length {A = ℕ}) e, length-append path (codes ".tmp"))

module _ {W : Type 0} (sys : Sys W) (law : IsFileSystem sys) (path content other : Text)
    (start : W) where
  -- What the caller finds, starting at `start`.
  abbrev Replaces : Option Text × W → Type 0
  Replaces (failed, w) =
      ((failed ≡ none → sys.read_file path w ≡ some content)
        × ((error : Text) → failed ≡ some error → sys.read_file path w ≡ sys.read_file path start))
      × (other ≢ path → other ≢ tmp_of path → sys.read_file other w ≡ sys.read_file other start)

  -- Nothing but the temporary file has changed yet.
  abbrev Untouched : W → Type 0
  Untouched w =
      (sys.read_file path w ≡ sys.read_file path start)
      × (other ≢ path → other ≢ tmp_of path → sys.read_file other w ≡ sys.read_file other start)

  promote-Replaces :
      (w : W)
      → Untouched w
      → sys.read_file (tmp_of path) w ≡ some content
      → Replaces (promote sys path w)
  unfolding promote
  promote-Replaces w (same, others) filled =
      let tmp = tmp_of path in
      let ne = path-ne-tmp_of path in
      let w' = (sys.rename tmp path w).1 in
      elim (Option-cases (sys.rename tmp path w).0) [
        | inl done ↦ (
          (
            (λ _. ground (arith, law.rename_done tmp path w done)),
            λ error e. absurd (ground arith),
          ),
          λ a b. ground (arith, law.rename_frame tmp path other w b a, others a b),
        )
        | inr (error, failed) ↦ (
          (
            (λ e. absurd (ground arith)),
            λ error' e. ground (
              arith,
              law.remove_frame tmp path w' ne,
              law.rename_failed tmp path path error w failed,
            ),
          ),
          λ a b. ground (
            arith,
            law.remove_frame tmp other w' b,
            law.rename_failed tmp path other error w failed,
            others a b,
          ),
        )
      ]

  fill-Replaces :
      (sys.open_trunc (tmp_of path) start).0 ≡ true
      → Replaces (fill sys path content (sys.open_trunc (tmp_of path) start).1)
  unfolding fill
  fill-Replaces opened =
      let tmp = tmp_of path in
      let ne = path-ne-tmp_of path in
      let w1 = (sys.open_trunc tmp start).1 in
      let w2 = (sys.write_flush tmp content w1).1 in
      let untouched : Untouched w2 = (
        ground (arith, law.write_frame tmp path content w1 ne, law.open_frame tmp path start ne),
        λ a b.
            ground
              (arith, law.write_frame tmp other content w1 b, law.open_frame tmp other start b),
      ) in
      elim (Bool-cases (sys.write_flush tmp content w1).0) [
        | inl written ↦
            rw (written, fill)
              (promote-Replaces w2 untouched (law.write_done tmp content start opened written))
        | inr failed ↦
            rw (failed, fill)
              (
                (
                  (λ e. absurd (ground arith)),
                  λ error e. ground (arith, law.remove_frame tmp path w2 ne, untouched.0),
                ),
                λ a b. ground (arith, law.remove_frame tmp other w2 b, untouched.1 a b),
              )
      ]

  -- On a file system that behaves as documented, a write that reports success leaves exactly the
  -- content in the file, and one that reports an error leaves the file as it was, present or not;
  -- and no other file changes but the temporary one.
  pub write_file_atomic_lem :
      let (failed, w) = write_file_atomic sys path content start in
      ((failed ≡ none → sys.read_file path w ≡ some content)
        × ((error : Text) → failed ≡ some error → sys.read_file path w ≡ sys.read_file path start))
      × (other ≢ path → other ≢ tmp_of path → sys.read_file other w ≡ sys.read_file other start)
  unfolding write_file_atomic
  write_file_atomic_lem =
      let tmp = tmp_of path in
      elim (Bool-cases (sys.open_trunc tmp start).0) [
        | inl opened ↦ rw (opened, write_file_atomic) (fill-Replaces opened)
        | inr failed ↦
            rw (failed, write_file_atomic)
              (
                (
                  (λ e. absurd (ground arith)),
                  λ error e. law.open_frame tmp path start (path-ne-tmp_of path),
                ),
                λ a b. law.open_frame tmp other start b,
              )
      ]
