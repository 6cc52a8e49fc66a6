-- ===== src/AsyncIo/Windows/Modes.antt =====
-- The modes of async.open of src/lua/async_io_library.cc on POSIX and on Windows.
use bernardx.Base.{
  ◌≡◌, refl, Bool, true, false, List, [], ◌∷◌, Option, none, some, Bytes, codes, bytes_eq,
  Bool-cases, inl, inr,
}
use bernardx.AsyncIo.Exec.{
  OpenFlag, o_rdonly, o_wronly, o_rdwr, o_creat, o_trunc, o_append, open_flags,
}
use bernardx.AsyncIo.Windows.{
  Access, generic_read, generic_write, file_append_data, Disposition, open_existing, create_always,
  open_always, windows_mode,
}

-- What a mode means: reading, writing, making a file that is missing, emptying it, appending.
pub record Meaning : Type 0 where
  pub reads : Bool
  pub writes : Bool
  pub creates : Bool
  pub empties : Bool
  pub appends : Bool

abbrev nothing : Meaning
nothing = record {
  reads = false;
  writes = false;
  creates = false;
  empties = false;
  appends = false;
}

-- As open(2) documents its flags.
abbrev pub posix_meaning : List OpenFlag → Meaning
posix_meaning [] = nothing
posix_meaning (o_rdonly ∷ flags) = record (posix_meaning flags) { reads = true }
posix_meaning (o_wronly ∷ flags) = record (posix_meaning flags) { writes = true }
posix_meaning (o_rdwr ∷ flags) = record (posix_meaning flags) { reads = true; writes = true }
posix_meaning (o_creat ∷ flags) = record (posix_meaning flags) { creates = true }
posix_meaning (o_trunc ∷ flags) = record (posix_meaning flags) { empties = true }
posix_meaning (o_append ∷ flags) = record (posix_meaning flags) { appends = true }

-- As CreateFile documents its access rights and dispositions.
abbrev disposed : Disposition → Meaning
disposed open_existing = nothing
disposed create_always = record nothing { creates = true; empties = true }
disposed open_always = record nothing { creates = true }

abbrev pub windows_meaning : List Access → Disposition → Meaning
windows_meaning [] d = disposed d
windows_meaning (generic_read ∷ access) d = record (windows_meaning access d) { reads = true }
windows_meaning (generic_write ∷ access) d = record (windows_meaning access d) { writes = true }
windows_meaning (file_append_data ∷ access) d = record (windows_meaning access d) {
  writes = true;
  appends = true;
}

abbrev pub posix_of : Option (List OpenFlag) → Option Meaning
posix_of none = none
posix_of (some flags) = some (posix_meaning flags)

abbrev pub windows_of : Option (List Access × Disposition) → Option Meaning
windows_of none = none
windows_of (some (access, d)) = some (windows_meaning access d)

-- async.open takes the same modes on POSIX and on Windows, and each means the same of the file:
-- whether it is read, written, made, emptied and appended to.
pub windows_mode-open_flags :
    (mode : Bytes) → windows_of (windows_mode mode) ≡ posix_of (open_flags mode)
unfolding windows_mode open_flags
windows_mode-open_flags mode = elim (Bool-cases (bytes_eq mode (codes "r"))) [
  | inl e ↦ rw e refl
  | inr e ↦ elim (Bool-cases (bytes_eq mode (codes "w"))) [
    | inl f ↦ rw (e, f) refl
    | inr f ↦ elim (Bool-cases (bytes_eq mode (codes "a"))) [
      | inl g ↦ rw (e, f, g) refl
      | inr g ↦ elim (Bool-cases (bytes_eq mode (codes "r+"))) [
        | inl h ↦ rw (e, f, g, h) refl
        | inr h ↦ elim (Bool-cases (bytes_eq mode (codes "w+"))) [
          | inl i ↦ rw (e, f, g, h, i) refl
          | inr i ↦ rw (e, f, g, h, i) refl
        ]
      ]
    ]
  ]
]
