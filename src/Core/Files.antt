-- ===== src/Core/Files.antt =====
-- src/core/support_method.cpp, the files: the lock that guards them, reading, writing by way of a second
-- file, and the defaults that a factory reset restores. The paths are never null.
pub mod Atomic
use project_voyager.Prelude.{
  ℕ, zero, suc, ◌+◌, ◌-◌, ◌*◌, ◌/◌, ◌%◌, ◌^◌, ◌≤◌, ◌<◌, ◌≡◌, refl, sym, ap, ◌∙◌, ◌≢◌, ◌↔◌, ◌⊎◌, inl,
  inr, Bool, true, false, not, ◌&&◌, ◌||◌, Option, none, some, List, [], ◌∷◌, ◌++◌, map,
  append_assoc, append-nil, arith, ltb, leb, ◌==◌, ◌!=◌, if◌then◌else◌, is_some, ==_iff, Bool-cases,
  Option-cases, Bytes, codes, length, get_elem?, get_or, set, take, drop, replicate, All,
  length-append, take-length-append, drop-length-append, length-set, length-take, get_or-set_self,
  get_or-set_ne, IsByte, str_eq, str_eq_iff, str_eq_refl, str_eq_empty, List-cases,
}

-- The file system, LittleFS, which is not part of the repository. `write` opens a file anew, prints to it
-- and closes it; `none` is a file that does not open, else the number of bytes written.
pub record LittleFs : Type 1 where
  pub Store : Type 0
  pub lookup : Store → Bytes → Option Bytes
  pub write : Store → Bytes → Bytes → Store × Option ℕ
  pub rename : Store → Bytes → Bytes → Store × Bool
  pub remove : Store → Bytes → Store × Bool

-- What an operation finds: the flags, whether the calling task holds the lock, whether it gets it in time,
-- the flag `web_fs_offline()` after that, and whether the file that is read opens.
pub record Access : Type 0 where
  pub mounted : Bool
  pub has_mutex : Bool
  pub mine : Bool
  pub offline : Bool
  pub taken : Bool
  pub offline_then : Bool
  pub opens : Bool

unfoldable pub fs_enter : Access → Bool
fs_enter a =
    if not a.mounted
    then false
    else if not a.has_mutex
    then not a.offline
    else if a.offline && not a.mine
    then false
    else if not a.taken
    then false
    else if a.offline_then && not a.mine
    then false
    else true

abbrev pub tmp_of : Bytes → Bytes
tmp_of path = path ++ codes ".tmp"

module _ (fs : LittleFs) where
  open fs use {Store, lookup, write, rename, remove}

  -- `none` is the result `false`.
  unfoldable pub read_file : Access → Store → Bytes → Option Bytes
  unfolding fs_enter
  read_file a s path =
      let content : Option Bytes = elim (lookup s path) [
        | none ↦ none
        | some c ↦ if a.opens && leb (length c) 4096 then some c else none
      ] in
      if fs_enter a then content else none

  -- The part behind the file that was opened, with the number of bytes written.
  unfoldable pub replace : Store → Bytes → Bytes → ℕ → Store × Bool
  replace s path content written =
      let (renamed, ok) = rename s (tmp_of path) path in
      if written != length content
      then ((remove s (tmp_of path)).0, false)
      else if ok
      then (renamed, true)
      else ((remove renamed (tmp_of path)).0, false)

  unfoldable pub write_file_atomic : Access → Store → Bytes → Bytes → Store × Bool
  unfolding fs_enter replace
  write_file_atomic a s path content =
      let (s', written) = write s (tmp_of path) content in
      let done : Store × Bool = elim written [
        | none ↦ (s', false)
        | some n ↦ replace s' path content n
      ] in
      if fs_enter a then done else (s, false)

  -- The first access is that of the reading, the second that of the writing.
  unfoldable pub restore_default : Access → Access → Store → Bytes → Bytes → Store × Bool
  unfolding read_file write_file_atomic
  restore_default a b s target source = elim (read_file a s source) [
    | none ↦ (s, false)
    | some content ↦
        if length content == 0 then (s, false) else write_file_atomic b s target content
  ]
