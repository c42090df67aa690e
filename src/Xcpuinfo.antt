-- ===== src/Xcpuinfo.antt =====
-- src/common/xcpuinfo.c: the machine's processors. hwloc is a parameter: whether its calls
-- succeed, and its numbers of groups (none if it knows no such level), sockets, cores and units.
use deamon.Common.{
  ==_gt, ℕ, ◌*◌, ◌/◌, ◌%◌, ◌^◌, ◌<◌, ◌≡◌, refl, ap, ◌∙◌, Bool, true, false, Option, none, some,
  ◌==◌, arith, if◌then◌else◌,
}
use deamon.Common.Outcome.{Outcome, ok, fault, division_by_zero, ◌>>=◌}
use native.Mathlib.Nat.{mul-div_cancel, mul_comm}

pub record Hwloc : Type 0 where
  pub init_fails : Bool
  pub load_fails : Bool
  pub groups : Option ℕ
  pub sockets : ℕ
  pub cores : ℕ
  pub units : ℕ

-- The static variables; numbers are uint16_t.
pub record CpuInfo : Type 0 where
  pub initialized : Bool
  pub procs : ℕ
  pub boards : ℕ
  pub sockets : ℕ
  pub cores : ℕ
  pub threads : ℕ

abbrev pub xcpuinfo_success : ℕ
xcpuinfo_success = 0

abbrev pub xcpuinfo_error : ℕ
xcpuinfo_error = 1

abbrev pub init_info : CpuInfo
init_info = record {
  initialized = false;
  procs = 0;
  boards = 0;
  sockets = 0;
  cores = 0;
  threads = 1;
}

abbrev pub divide : ℕ → ℕ → Outcome ℕ
divide a b = if b == 0 then fault division_by_zero else ok (a / b)

-- The values go to the variables that the pointers name.
unfoldable pub xcpuinfo_hwloc_topo_get : Hwloc → CpuInfo → Outcome (ℕ × CpuInfo)
xcpuinfo_hwloc_topo_get h s =
    if h.init_fails
    then ok (xcpuinfo_error, s)
    else if h.load_fails
    then ok (xcpuinfo_error, s)
    else (divide h.cores h.sockets >>= λ cores_per_socket.
        divide h.units cores_per_socket >>= λ threads_per_core. ok (
          xcpuinfo_success,
          record s {
            procs = h.units % 2 ^ 16;
            boards = elim h.groups [ none ↦ 0 | some n ↦ n ] % 2 ^ 16;
            sockets = h.sockets % 2 ^ 16;
            cores = cores_per_socket % 2 ^ 16;
            threads = threads_per_core % 2 ^ 16;
          },
        ))

unfoldable pub xcpuinfo_init : Hwloc → CpuInfo → Outcome (ℕ × CpuInfo)
unfolding xcpuinfo_hwloc_topo_get
xcpuinfo_init h s =
    if s.initialized
    then ok (xcpuinfo_success, s)
    else (xcpuinfo_hwloc_topo_get h s >>= λ r.
        if r.0 == xcpuinfo_success
        then ok (xcpuinfo_success, record r.1 { initialized = true })
        else ok (xcpuinfo_error, r.1))

-- `procs, boards, sockets, cores, threads = 0` assigns to the last one only.
unfoldable pub xcpuinfo_fini : CpuInfo → ℕ × CpuInfo
xcpuinfo_fini s =
    if s.initialized then (xcpuinfo_success, record s { threads = 0 }) else (xcpuinfo_success, s)

divide_some : (a b : ℕ) → 0 < b → divide a b ≡ ok (a / b)
divide_some a b h = rw (==_gt b 0 h)

-- `m` is a product with the positive factor `b`.
divide_product : (m a b : ℕ) → 0 < b → m ≡ a * b → divide m b ≡ ok a
divide_product m a b h q = divide_some m b h ∙ ap ok (ap (λ x. x / b) q ∙ mul-div_cancel a h)

swap : (s c t : ℕ) → s * c * t ≡ s * t * c
swap s c t = grind arith

-- On a machine with `t` threads in each of `c` cores in each of `s` sockets, when hwloc does not fail
-- and nothing has been initialised before: the numbers of sockets and of cores for a socket are
-- found, cut to 16 bits, and the number of threads for a core comes out as `s * t`.
pub xcpuinfo_init_even :
    (h : Hwloc) (s c t : ℕ) (info : CpuInfo)
    → info.initialized ≡ false
    → h.init_fails ≡ false
    → h.load_fails ≡ false
    → 0 < s
    → 0 < c
    → h.sockets ≡ s
    → h.cores ≡ s * c
    → h.units ≡ s * c * t
    → (info' : CpuInfo) × (xcpuinfo_init h info ≡ ok (xcpuinfo_success, info'))
      × (info'.initialized ≡ true)
      × (info'.sockets ≡ s % 2 ^ 16)
      × (info'.cores ≡ c % 2 ^ 16)
      × (info'.threads ≡ (s * t) % 2 ^ 16)
unfolding xcpuinfo_init
xcpuinfo_init_even h s c t info i f1 f2 hs hc q1 q2 q3 = (
  record {
    initialized = true;
    procs = h.units % 2 ^ 16;
    boards = elim h.groups [ none ↦ 0 | some n ↦ n ] % 2 ^ 16;
    sockets = h.sockets % 2 ^ 16;
    cores = c % 2 ^ 16;
    threads = (s * t) % 2 ^ 16;
  },
  rw (i, f1, f2, cores, threads),
  refl,
  ap (λ x. x % 2 ^ 16) q1,
  refl,
  refl,
)
  where
    cores : divide h.cores h.sockets ≡ ok c
    cores = ap (divide h.cores) q1 ∙ divide_product h.cores c s hs (q2 ∙ mul_comm s c)

    threads : divide h.units c ≡ ok (s * t)
    threads = divide_product h.units (s * t) c hc (q3 ∙ swap s c t)
