-- ===== src/MemoryPool/Mallctl.antt =====
-- The wrappers of je_mallctl: software/libstf/memory_pool.cpp lines 16-87. je_mallctl is a call of
-- jemalloc, which is not part of the repository: it gets the name of a control and the value to write,
-- if there is one, and returns an error number and the value that it read.
use libstf.Base.{ℕ, zero, suc, ◌≡◌, refl, arith, Option, none, some, ◌++◌, not, ◌==◌, if◌then◌else◌}
use libstf.Base.Action.{Result, ok, err, runtime_error}
use libstf.Logging.{Text, text}
use libstf.MemoryPool.Jemalloc.{Jemalloc}

-- The numbers of <errno.h> on Linux.
abbrev pub mallctl_error_to_string : ℕ → Text
mallctl_error_to_string error =
    if error == 22
    then text "The alignment parameter is not a power of 2 at least as large as sizeof(void *)."
    else if error == 2
    then text "Name or mib specifies an unknown/invalid value."
    else if error == 1
    then text "Attempt to read or write void value, or attempt to write read-only value."
    else if error == 11
    then text "A memory allocation failure occurred."
    else if error == 14
    then text "EFAULT occurred"
    else text "Unknown error."

-- What a wrapper does: it returns, or throws a std::runtime_error with this message.
pub data Checked (A : Type 0) : Type 0 where
  returned : A → Checked A
  thrown : Text → Checked A

abbrev pub check_mallctl_success : {A : Type 0} → ℕ → Text → A → Checked A
check_mallctl_success error msg value =
    if not (error == 0)
    then thrown (msg ++ (text " Got error: " ++ mallctl_error_to_string error))
    else returned value

module _ {S : Type 0} (je_mallctl : Text → Option ℕ → S → (ℕ × ℕ) × S) where
  -- `je_mallctl_do(control_name)`
  unfoldable pub je_mallctl_do : Text → S → Checked (Unit {0}) × S
  je_mallctl_do control_name s =
      let ((error, _), s') = je_mallctl control_name none s in
      (
        check_mallctl_success error
            (text "Failed to execute mallctl control " ++ (control_name ++ text ".")) tt,
        s',
      )

  -- `je_mallctl_write(control_name, &value)`
  unfoldable pub je_mallctl_write : Text → ℕ → S → Checked (Unit {0}) × S
  je_mallctl_write control_name value s =
      let ((error, _), s') = je_mallctl control_name (some value) s in
      (
        check_mallctl_success error
            (text "Failed to write to mallctl control " ++ (control_name ++ text ".")) tt,
        s',
      )

  -- `je_mallctl_read(control_name)`
  unfoldable pub je_mallctl_read : Text → S → Checked ℕ × S
  je_mallctl_read control_name s =
      let ((error, value), s') = je_mallctl control_name none s in
      (
        check_mallctl_success error
            (text "Failed to read from mallctl control " ++ (control_name ++ text ".")) value,
        s',
      )

  -- `je_mallctl_read_write(control_name, &write_value)`
  unfoldable pub je_mallctl_read_write : Text → ℕ → S → Checked ℕ × S
  je_mallctl_read_write control_name write_value s =
      let ((error, read_value), s') = je_mallctl control_name (some write_value) s in
      (
        check_mallctl_success error
            (text "Failed to read/write from mallctl control " ++ (control_name ++ text "."))
            read_value,
        s',
      )

-- The message is part of the exception.
abbrev pub to_result : {A S : Type 0} → Checked A × S → Result A × S
to_result (returned a, s) = (ok a, s)
to_result (thrown msg, s) = (err runtime_error, s)

-- The controls that HugePageMemoryPool reads and writes, `arena` being the control that destroys its
-- arena, beside the calls that allocate.
abbrev pub with_controls :
    {S : Type 0}
    → (Text → Option ℕ → S → (ℕ × ℕ) × S)
    → Text
    → (ℕ → ℕ → ℕ → S → ℕ × S)
    → (ℕ → ℕ → ℕ → ℕ → S → ℕ × S)
    → (ℕ → ℕ → S → S)
    → Jemalloc
with_controls {S} je_mallctl arena mallocx rallocx dallocx = record {
  State = S;
  mallocx = mallocx;
  rallocx = rallocx;
  dallocx = dallocx;
  tcache_create = λ s. to_result (je_mallctl_read je_mallctl (text "tcache.create") s);
  tcache_destroy = λ tc s. to_result (je_mallctl_write je_mallctl (text "tcache.destroy") tc s);
  arena_destroy = λ s. to_result (je_mallctl_do je_mallctl arena s);
}

-- A thread cache is created where jemalloc reports no error, with the number that it gives, and else
-- the call throws.
pub tcache_create-outcomes :
    {S : Type 0} (je_mallctl : Text → Option ℕ → S → (ℕ × ℕ) × S) (arena : Text)
    (mallocx : ℕ → ℕ → ℕ → S → ℕ × S) (rallocx : ℕ → ℕ → ℕ → ℕ → S → ℕ × S)
    (dallocx : ℕ → ℕ → S → S) (s : S)
    → let j = with_controls je_mallctl arena mallocx rallocx dallocx in
      let r = je_mallctl (text "tcache.create") none s in
      j.tcache_create s ≡ (if r.0.0 == 0 then ok r.0.1 else err runtime_error, r.1)
unfolding je_mallctl_read
tcache_create-outcomes je_mallctl arena mallocx rallocx dallocx s =
    by_error (je_mallctl (text "tcache.create") none s).0.0
  where
    by_error :
        (e : ℕ)
        → to_result (
          check_mallctl_success e
              (text "Failed to read from mallctl control " ++ (text "tcache.create" ++ text "."))
              (je_mallctl (text "tcache.create") none s).0.1,
          (je_mallctl (text "tcache.create") none s).1,
        )
          ≡ (
            if e == 0 then ok (je_mallctl (text "tcache.create") none s).0.1 else err runtime_error,
            (je_mallctl (text "tcache.create") none s).1,
          )
    by_error zero = refl
    by_error (suc e) = ground arith
