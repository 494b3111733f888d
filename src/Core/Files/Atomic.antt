-- ===== src/Core/Files/Atomic.antt =====
-- src/core/support_method.cpp, `write_file_atomic`: a file has its old content or its new one, whatever
-- fails.

use project_voyager.Prelude.{
  ℕ, ◌≡◌, refl, ap, ◌∙◌, ◌≢◌, inl, inr, Bool, true, false, some, arith, ◌==◌, if◌then◌else◌,
  Bool-cases, Option-cases, Bytes, codes, length, length-append,
}
use project_voyager.Core.Files.{LittleFs, Access, fs_enter, tmp_of, replace, write_file_atomic}

-- What the documentation of LittleFS promises: an operation touches no other file, a complete write is
-- read back, and a rename replaces its target at once or changes nothing.
pub record Documented (fs : LittleFs) : Type 0 where
  pub write_other :
      (s : fs.Store) (path p content : Bytes)
      → p ≢ path
      → fs.lookup (fs.write s path content).0 p ≡ fs.lookup s p
  pub write_all :
      (s : fs.Store) (path content : Bytes)
      → (fs.write s path content).1 ≡ some (length content)
      → fs.lookup (fs.write s path content).0 path ≡ some content
  pub rename_to :
      (s : fs.Store) (from to : Bytes)
      → (fs.rename s from to).1 ≡ true
      → fs.lookup (fs.rename s from to).0 to ≡ fs.lookup s from
  pub rename_other :
      (s : fs.Store) (from to p : Bytes)
      → p ≢ from
      → p ≢ to
      → fs.lookup (fs.rename s from to).0 p ≡ fs.lookup s p
  pub rename_failed :
      (s : fs.Store) (from to p : Bytes)
      → (fs.rename s from to).1 ≡ false
      → fs.lookup (fs.rename s from to).0 p ≡ fs.lookup s p
  pub remove_other :
      (s : fs.Store) (path p : Bytes) → p ≢ path → fs.lookup (fs.remove s path).0 p ≡ fs.lookup s p

tmp_of_ne : (path : Bytes) → path ≢ tmp_of path
tmp_of_ne path e = omega (arith, length-append path (codes ".tmp"), ap length e)

module _ (fs : LittleFs) (laws : Documented fs) where
  -- What holds after the second part.
  record Replaced (s : fs.Store) (path content : Bytes) (x : fs.Store × Bool) : Type 0 where
    success : x.1 ≡ true → fs.lookup x.0 path ≡ some content
    failure : x.1 ≡ false → fs.lookup x.0 path ≡ fs.lookup s path
    others : (p : Bytes) → p ≢ path → p ≢ tmp_of path → fs.lookup x.0 p ≡ fs.lookup s p

  replace-Replaced :
      (s : fs.Store) (path content : Bytes) (n : ℕ)
      → (fs.write s (tmp_of path) content).1 ≡ some n
      → Replaced s path content (replace fs (fs.write s (tmp_of path) content).0 path content n)
  unfolding replace
  replace-Replaced s path content n e =
      let tmp = tmp_of path in
      let s₁ = (fs.write s tmp content).0 in
      let kept = laws.write_other s tmp in
      let ren = (fs.rename s₁ tmp path).0 in
      let ne = tmp_of_ne path in
      elim (Bool-cases (n == length content)) [
        | inl all ↦
            let whole : n ≡ length content = ground (arith, all) in
            let stored = laws.write_all s tmp content (e ∙ ap some whole) in
            elim (Bool-cases (fs.rename s₁ tmp path).1) [
              | inl ok ↦
                  rw (all, ok)
                    (record {
                      success = λ _. laws.rename_to s₁ tmp path ok ∙ stored;
                      failure = λ wrong. ground (arith, wrong);
                      others = λ p a b. laws.rename_other s₁ tmp path p b a ∙ kept p content b;
                    })
              | inr no_rename ↦
                  rw (all, no_rename)
                    (record {
                      success = λ wrong. ground (arith, wrong);
                      failure = λ _.
                          laws.remove_other ren tmp path ne
                          ∙ laws.rename_failed s₁ tmp path path no_rename
                          ∙ kept path content ne;
                      others = λ p a b.
                          laws.remove_other ren tmp p b
                          ∙ laws.rename_failed s₁ tmp path p no_rename
                          ∙ kept p content b;
                    })
            ]
        | inr partial ↦ rw partial (record {
          success = λ wrong. ground (arith, wrong);
          failure = λ _. laws.remove_other s₁ tmp path ne ∙ kept path content ne;
          others = λ p a b. laws.remove_other s₁ tmp p b ∙ kept p content b;
        })
      ]

  write-Replaced :
      (a : Access) (s : fs.Store) (path content : Bytes)
      → Replaced s path content (write_file_atomic fs a s path content)
  unfolding write_file_atomic
  write-Replaced a s path content =
      let tmp = tmp_of path in
      let kept = laws.write_other s tmp in
      elim (Bool-cases (fs_enter a)) [
        | inr shut ↦
            rw (write_file_atomic, shut)
              (record {
                success = λ wrong. ground (arith, wrong);
                failure = λ _. refl;
                others = λ p b c. refl;
              })
        | inl entered ↦ elim (Option-cases (fs.write s tmp content).1) [
          | inl unopened ↦
              rw (write_file_atomic, entered, unopened)
                (record {
                  success = λ wrong. ground (arith, wrong);
                  failure = λ _. kept path content (tmp_of_ne path);
                  others = λ p b c. kept p content c;
                })
          | inr (n, e) ↦ rw (write_file_atomic, entered, e) (replace-Replaced s path content n e)
        ]
      ]

  -- With a file system that keeps its documented promises, a file that is written has the whole new
  -- content if the result is true, and what it had before if the result is false, whichever step failed:
  -- the lock, opening, writing in full, or renaming. No file but this one and its temporary one changes.
  pub write_file_atomic_lem :
      (a : Access) (s : fs.Store) (path content : Bytes)
      → let (s', ok) = write_file_atomic fs a s path content in
        (fs.lookup s' path ≡ (if ok then some content else fs.lookup s path))
        × ((p : Bytes) → p ≢ path → p ≢ tmp_of path → fs.lookup s' p ≡ fs.lookup s p)
  write_file_atomic_lem a s path content =
      let w = write-Replaced a s path content in
      let x = write_file_atomic fs a s path content in
      (elim (Bool-cases x.1) [ inl e ↦ rw e (w.success e) | inr e ↦ rw e (w.failure e) ], w.others)
