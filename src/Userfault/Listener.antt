-- ===== src/Userfault/Listener.antt =====
-- The loop of `listener_thread` in userfaultfd/simple.c, as the states it can reach.
use mm_exper.Base.{ℕ, ◌+◌, ◌^◌, ◌%◌, ◌≤◌, ◌<◌, ◌≡◌, refl, ap, ◌*◌, arith, Bool, true, false}
use mm_exper.Base.{Option, none, some, List, [], ◌∷◌, map, bit_and}
use mathlib.Core.Path.{subst}
use mm_exper.Base.Masks.{two_pow_pos, two_pow_lt}
use mm_exper.Base.Word.{bit_not}
use mm_exper.Bitwise.{align64}
use mm_exper.Bitwise.Align.{align64_lem}
use mm_exper.Userfault.{
  Msg, fault, fork, remap, remove, unmap, other, Copy, State, Answers, Ending, returned, page_align,
  handle_fault, handle_event, register_page_range,
}

-- The pages of the process that the faults are in are `2 ^ k` bytes.
module _ (uffd k : ℕ) where
  -- The states behind the messages that were read, the latest first, each one handled and not the last.
  pub data Listens : List Msg → State → Type 0 where
    listening : Listens [] (record { mapped = []; copies = []; out = [] })
    handled :
        {msgs : List Msg} {s t : State}
        → Listens msgs s
        → (msg : Msg) (answers : Answers) (fd : ℕ)
        → handle_event (2 ^ k) uffd (some msg) answers s ≡ (t, returned fd)
        → Listens (msg ∷ msgs) t

-- The addresses of the faults among messages.
abbrev pub fault_addresses : List Msg → List ℕ
fault_addresses [] = []
fault_addresses (fault flags address ptid ∷ msgs) = address ∷ fault_addresses msgs
fault_addresses (fork ufd ∷ msgs) = fault_addresses msgs
fault_addresses (remap ∷ msgs) = fault_addresses msgs
fault_addresses (remove ∷ msgs) = fault_addresses msgs
fault_addresses (unmap ∷ msgs) = fault_addresses msgs
fault_addresses (other event ∷ msgs) = fault_addresses msgs

-- A copy fills the page of `2 ^ k` bytes that an address lies in.
abbrev pub Fills : ℕ → ℕ → Copy → Type 0
Fills k address c =
    (c.dst % 2 ^ k ≡ 0) × (c.dst ≤ address) × (address < c.dst + 2 ^ k) × (c.len ≡ 2 ^ k)

-- One copy for each address, in order.
abbrev pub Served : ℕ → List ℕ → List Copy → Type 0
Served k [] [] = Unit
Served k [] (c ∷ cs) = ⊥
Served k (a ∷ addresses) [] = ⊥
Served k (a ∷ addresses) (c ∷ cs) = Fills k a c × Served k addresses cs

-- Each page that was mapped is the source of a copy of its own.
abbrev pub IsServed : ℕ → List Msg → State → Type 0
IsServed k msgs s =
    Served k (fault_addresses msgs) s.copies × (s.mapped ≡ map (λ (c : Copy). c.src) s.copies)

-- 64-bit addresses.
abbrev pub AreWords : List ℕ → Type 0
AreWords [] = Unit
AreWords (a ∷ addresses) = (a < 2 ^ 64) × AreWords addresses

page_align-align64 : (k addr : ℕ) → k < 64 → page_align (2 ^ k) addr ≡ align64 addr (2 ^ k)
unfolding page_align align64
page_align-align64 k addr h =
    ap (λ (m : ℕ). bit_and addr (bit_not m)) (omega (arith, two_pow_pos k, two_pow_lt k h))

page_align-Fills :
    (uffd src k a : ℕ)
    → k < 64
    → a < 2 ^ 64
    → Fills k a (record { uffd = uffd; src = src; dst = page_align (2 ^ k) a; len = 2 ^ k })
page_align-Fills uffd src k a h fits =
    let (lower, upper, aligned) = align64_lem a k fits h in
    rw (page_align-align64 k a h) (aligned, lower, upper, refl)

AreWords-older :
    (msg : Msg) (msgs : List Msg)
    → AreWords (fault_addresses (msg ∷ msgs))
    → AreWords (fault_addresses msgs)
AreWords-older (fault flags address ptid) msgs w = w.1
AreWords-older (fork ufd) msgs w = w
AreWords-older remap msgs w = w
AreWords-older remove msgs w = w
AreWords-older unmap msgs w = w
AreWords-older (other event) msgs w = w

module _ (uffd k : ℕ) (small : k < 64) (msgs : List Msg) (s : State) {t : State} {fd : ℕ}
    (served : IsServed k msgs s) where
  fault-IsServed :
      (flags address ptid : ℕ) (page : Option ℕ) (copied : Bool)
      → address < 2 ^ 64
      → handle_fault (2 ^ k) uffd flags address ptid (record { page = page; copied = copied }) s
        ≡ (t, returned fd)
      → IsServed k (fault flags address ptid ∷ msgs) t
  unfolding handle_fault
  fault-IsServed flags address ptid none copied fits e = absurd (cc)
  fault-IsServed flags address ptid (some ptr) false fits e = absurd (cc)
  fault-IsServed flags address ptid (some ptr) true fits e =
      subst (λ (u : State). IsServed k (fault flags address ptid ∷ msgs) u)
        (ap (λ (r : State × Ending). r.0) e)
        ((page_align-Fills uffd ptr k address small fits, served.0), ap (◌∷◌ ptr) served.1)

  event-IsServed :
      (msg : Msg) (answers : Answers)
      → AreWords (fault_addresses (msg ∷ msgs))
      → handle_event (2 ^ k) uffd (some msg) answers s ≡ (t, returned fd)
      → IsServed k (msg ∷ msgs) t
  unfolding handle_event
  event-IsServed (fault flags address ptid) answers w e =
      fault-IsServed flags address ptid answers.page answers.copied w.0 e
  event-IsServed (fork ufd) answers w e =
      subst (IsServed k msgs) (ap (λ (r : State × Ending). r.0) e) served
  event-IsServed remap answers w e =
      subst (IsServed k msgs) (ap (λ (r : State × Ending). r.0) e) served
  event-IsServed remove answers w e =
      subst (IsServed k msgs) (ap (λ (r : State × Ending). r.0) e) served
  event-IsServed unmap answers w e =
      subst (IsServed k msgs) (ap (λ (r : State × Ending). r.0) e) served
  event-IsServed (other event) answers w e = absurd (cc)

-- On pages of `2 ^ k` bytes, k below 64: in every state that the listener reaches, whatever events it reads and whatever
-- the kernel answers, it has made one UFFDIO_COPY for each fault and none else, in order, which fills the
-- page with the fault's address, each from a page of its own, and all of these pages are still
-- mapped. Fault addresses have 64 bits.
pub Listens-IsServed :
    {uffd k : ℕ} {msgs : List Msg} {s : State}
    → AreWords (fault_addresses msgs)
    → k < 64
    → Listens uffd k msgs s
    → IsServed k msgs s
Listens-IsServed w small listening = (tt, refl)
Listens-IsServed {uffd} {k} w small (handled {msgs} {s} run msg answers fd e) =
    event-IsServed uffd k small msgs s (Listens-IsServed (AreWords-older msg msgs w) small run) msg
      answers w e

-- The range that register_page_range registers, for a 64-bit address and pages of `2 ^ k` bytes,
-- is made of `num_pages` whole pages, the first of which has the address.
pub register_page_range_lem :
    (k ptr num_pages : ℕ)
    → k < 64
    → ptr < 2 ^ 64
    → let (start, len) = register_page_range (2 ^ k) ptr num_pages in
      (start % 2 ^ k ≡ 0) × (start ≤ ptr) × (ptr < start + 2 ^ k) × (len ≡ num_pages * 2 ^ k)
unfolding register_page_range
register_page_range_lem k ptr num_pages h fits =
    let f = page_align-Fills 0 0 k ptr h fits in (f.0, f.1, f.2, refl)
