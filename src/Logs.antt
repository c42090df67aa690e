-- ===== src/Logs.antt =====
-- src/common/logs.c and skrum_errno.c: the initialisation of the log, and the texts of the error
-- numbers. Logs/Line has the lines that are logged.
pub mod Line
pub mod Shown
-- The file calls and strerror are parameters.
use deamon.Common.{
  ==_lt, ==_gt, ℕ, ◌≤◌, ◌<◌, ◌≡◌, ◌⊎◌, inl, inr, refl, Bool, true, false, Option, none, some, List,
  [], ◌∷◌, ◌==◌, All, ltb, lt→ltb, arith, if◌then◌else◌,
}
use deamon.Common.Int.{ℤ, pos, negsuc, eq_ℤ}
use deamon.Common.Outcome.{Outcome, ok, fault, null_dereference}

-- log_level_t
abbrev pub log_level_quiet : ℕ
log_level_quiet = 0

abbrev pub log_level_fatal : ℕ
log_level_fatal = 1

abbrev pub log_level_error : ℕ
log_level_error = 2

abbrev pub log_level_info : ℕ
log_level_info = 3

abbrev pub log_level_warning : ℕ
log_level_warning = 4

abbrev pub log_level_verbose : ℕ
log_level_verbose = 5

abbrev pub log_level_debug : ℕ
log_level_debug = 6

pub record LogOption : Type 0 where
  pub stderr_level : ℕ
  pub syslog_level : ℕ
  pub logfile_level : ℕ

-- `*log` once it is allocated; `logfp` is the descriptor of the open log file.
pub record Log : Type 0 where
  pub argv0 : Option ℕ
  pub logfp : Option ℕ
  pub opts : LogOption
  pub initialized : Bool

-- `junk` is what malloc leaves in the flag, and `opened` is what open and fdopen make of the name of the log file: a descriptor, or errno. The
-- result is the return value; `prog` is the address of a name, or none.
unfoldable pub log_init : Bool → Option ℕ → LogOption → Bool → ℕ ⊎ ℕ → Option Log → ℕ × Log
log_init junk prog opts logfile opened log =
    let fresh : Log = elim log [
      | none ↦ record { argv0 = none; logfp = none; opts = opts; initialized = junk }
      | some l ↦ l
    ] in
    let named : Log = record fresh {
      argv0 = elim prog [ none ↦ fresh.argv0 | some p ↦ some p ];
      opts = opts;
    } in
    elim (if logfile then ltb log_level_quiet opts.logfile_level else false) [
      | false ↦ (0, record named { initialized = true })
      | true ↦ elim opened [
        | inl fd ↦ (0, record named { logfp = some fd; initialized = true })
        | inr errno ↦ (errno, named)
      ]
    ]

-- The texts of the error numbers.
pub data Text : Type 0 where
  message_error packing_error unpacking_error unknown_negative : Text
  system : ℕ → Text

abbrev pub skrum_msg_err : ℕ
skrum_msg_err = 1000

abbrev pub skrum_pck_err : ℕ
skrum_pck_err = 1001

abbrev pub skrum_upck_err : ℕ
skrum_upck_err = 1002

abbrev pub skrum_errtab : List (ℕ × Text)
skrum_errtab =
    (skrum_msg_err, message_error)
    ∷ (skrum_pck_err, packing_error)
    ∷ (skrum_upck_err, unpacking_error)
    ∷ []

-- The for loop over the table, which ends at the first number that fits.
unfoldable pub lookup : ℤ → List (ℕ × Text) → Option Text
lookup errnum [] = none
lookup errnum (x ∷ xs) = if eq_ℤ (pos x.0) errnum then some x.1 else lookup errnum xs

unfoldable pub skrum_strerror : ℤ → Text
unfolding lookup
skrum_strerror errnum = elim (lookup errnum skrum_errtab) [
  | some text ↦ text
  | none ↦ elim errnum [
    | pos n ↦ if ltb 0 n then system n else unknown_negative
    | negsuc n ↦ unknown_negative
  ]
]

-- The search of a table that does not have the number.
lookup-none :
    (errnum : ℤ) (xs : List (ℕ × Text))
    → All (λ (x : ℕ × Text). eq_ℤ (pos x.0) errnum ≡ false) xs
    → lookup errnum xs ≡ none
unfolding lookup
lookup-none errnum [] h = refl
lookup-none errnum (x ∷ xs) h = rw h.0 (lookup-none errnum xs h.1)

-- The number 0 and the negative numbers have the text for unknown negative numbers, and a positive
-- number outside the table has the system's text.
pub skrum_strerror-system :
    (n : ℕ)
    → 0 < n
    → (n < 1000) ⊎ (1002 < n)
    → (skrum_strerror (pos n) ≡ system n)
      × (skrum_strerror (negsuc n) ≡ unknown_negative)
      × (skrum_strerror (pos 0) ≡ unknown_negative)
unfolding skrum_strerror
skrum_strerror-system n h out = (
  rw (
    skrum_strerror,
    lookup-none (pos n) skrum_errtab (
      apart 1000 (omega arith) (omega arith),
      (apart 1001 (omega arith) (omega arith), (apart 1002 (omega arith) (omega arith), tt)),
    ),
    lt→ltb 0 n h,
  ),
  refl,
  refl,
)
  where
    apart : (k : ℕ) → 1000 ≤ k → k ≤ 1002 → (k == n) ≡ false
    apart k lo hi = elim out [ inl o ↦ ==_gt k n (omega arith) | inr o ↦ ==_lt k n (omega arith) ]
