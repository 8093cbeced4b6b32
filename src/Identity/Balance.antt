-- ===== src/Identity/Balance.antt =====
-- What `pbox_mmap_identity` (src/pbox/pbox.c) leaves mapped and open on every path.
use sbox.Prelude.{
  pos, ◌∙◌, ℕ, ◌≡◌, inl, inr, refl, ap, List, ◌∷◌, Bool, true, false, ◌==◌, not, Option, none, some,
  if◌then◌else◌, ℤ, negsuc, is_neg, arith, Bool-cases, ==_iff,
}
use sbox.Identity.{
  munmap_identity, host_munmap, sandbox_munmap, Maps, Answers, drop_addr, host_mmap, sandbox_mmap,
  host_close, agrees, remap_sandbox, remap_host, fall_back, map_sandbox, send_memory, make_memory,
  mmap_identity,
}

-- What the mappings are after a result: as before, or with the address on both sides.
abbrev pub added : Option ℕ → List ℕ → List ℕ
added none l = l
added (some a) l = a ∷ l

abbrev pub Mapped : List ℕ → List ℕ → List ℕ → Maps × Option ℕ → Type 0
Mapped host sandbox fds (m', result) =
    (m'.host ≡ added result host) × (m'.sandbox ≡ added result sandbox) × (m'.host_fds ≡ fds)

same_number : (n : ℕ) → (n == n) ≡ true
same_number n = ground arith

module _ (ans : Answers) (memfd : ℕ) (host sandbox fds : List ℕ) (sandbox_fds : List ℤ) where
  -- The descriptor is open, and nothing is mapped.
  abbrev opened : Maps
  opened = record {
    host = host;
    sandbox = sandbox;
    host_fds = memfd ∷ fds;
    sandbox_fds = sandbox_fds;
  }

  remap_sandbox-Mapped :
      (common : ℕ) (answer : Option ℕ)
      → Mapped host sandbox fds (remap_sandbox answer memfd common (host_mmap common opened))
  unfolding remap_sandbox host_mmap sandbox_mmap sandbox_munmap host_munmap host_close agrees
      drop_addr
  remap_sandbox-Mapped common none = rw (same_number common, same_number memfd) (refl, refl, refl)
  remap_sandbox-Mapped common (some b) = elim (Bool-cases (b == common)) [
    | inl same ↦
        let at_common : b ≡ common = (==_iff b common).0 same in
        rw (same, same_number memfd) (refl, ap (λ (x : ℕ). x ∷ sandbox) at_common, refl)
    | inr other ↦
        rw (other, same_number common, same_number memfd, same_number b) (refl, refl, refl)
  ]

  remap_host-Mapped :
      (common : ℕ) (answer : Option ℕ)
      → Mapped host sandbox fds (remap_host ans answer memfd common opened)
  unfolding remap_host
  remap_host-Mapped common none =
      unfold host_close drop_addr in rw (same_number memfd) (refl, refl, refl)
  remap_host-Mapped common (some a) = elim (Bool-cases (a == common)) [
    | inl same ↦
        let at_common : a ≡ common = (==_iff a common).0 same in
        rw same (rw at_common (remap_sandbox-Mapped common ans.sandbox_remap))
    | inr other ↦ rw other (
        unfold host_close host_mmap host_munmap drop_addr in
        rw (same_number a, same_number memfd) (refl, refl, refl))
  ]

  fall_back-Mapped :
      (answer : Option ℕ) → Mapped host sandbox fds (fall_back ans answer memfd opened)
  unfolding fall_back
  fall_back-Mapped none = unfold host_close drop_addr in rw (same_number memfd) (refl, refl, refl)
  fall_back-Mapped (some common) = remap_host-Mapped common ans.host_remap

  map_sandbox-Mapped :
      (a : ℕ) (answer : Option ℕ)
      → Mapped host sandbox fds (map_sandbox ans answer memfd a (host_mmap a opened))
  unfolding map_sandbox host_mmap sandbox_mmap sandbox_munmap host_munmap host_close agrees
      drop_addr
  map_sandbox-Mapped a none = rw (same_number a) (fall_back-Mapped ans.common)
  map_sandbox-Mapped a (some b) = elim (Bool-cases (b == a)) [
    | inl same ↦
        let at_a : b ≡ a = (==_iff b a).0 same in
        rw (same, same_number memfd) (refl, ap (λ (x : ℕ). x ∷ sandbox) at_a, refl)
    | inr other ↦ rw (other, same_number a, same_number b) (fall_back-Mapped ans.common)
  ]

-- Two guards with one way out.
either :
    (host sandbox fds : List ℕ) (go back : Bool) (out on : Maps × Option ℕ)
    → Mapped host sandbox fds out
    → Mapped host sandbox fds on
    → Mapped host sandbox fds (if not go then out else (if back then out else on))
either host sandbox fds true true out on h k = h
either host sandbox fds true false out on h k = k
either host sandbox fds false back out on h k = h

send_memory-Mapped :
    (ans : Answers) (memfd : ℕ) (host sandbox fds : List ℕ) (sandbox_fds : List ℤ)
    (answer : Option ℕ)
    → Mapped host sandbox fds
        (send_memory ans answer memfd (opened ans memfd host sandbox fds sandbox_fds))
unfolding send_memory
send_memory-Mapped ans memfd host sandbox fds sandbox_fds none =
    unfold host_close drop_addr in rw (same_number memfd) (refl, refl, refl)
send_memory-Mapped ans memfd host sandbox fds sandbox_fds (some a) =
    either host sandbox fds ans.has_channel (is_neg ans.sandbox_fd) _ _
      (unfold host_close host_mmap host_munmap drop_addr in
        rw (same_number a, same_number memfd) (refl, refl, refl))
      (unfold host_mmap in
        map_sandbox-Mapped ans memfd host sandbox fds (ans.sandbox_fd ∷ sandbox_fds) a
          ans.sandbox_map)

make_memory-Mapped :
    (ans : Answers) (memfd : ℤ) (m : Maps)
    → Mapped m.host m.sandbox m.host_fds (make_memory ans memfd m)
unfolding make_memory
make_memory-Mapped ans (negsuc n) m = (refl, refl, refl)
make_memory-Mapped ans (pos memfd) m =
    either m.host m.sandbox m.host_fds true (is_neg ans.ftruncate) _ _
      (unfold host_close drop_addr in rw (same_number memfd) (refl, refl, refl))
      (send_memory-Mapped ans memfd m.host m.sandbox m.host_fds m.sandbox_fds ans.host_map)

known :
    (host sandbox fds : List ℕ) (b : Bool) (on out : Maps × Option ℕ)
    → Mapped host sandbox fds on
    → Mapped host sandbox fds out
    → Mapped host sandbox fds (if b then on else out)
known host sandbox fds true on out h k = h
known host sandbox fds false on out h k = k

-- Whatever the calls answer, `pbox_mmap_identity` keeps no descriptor on the host's side, and it
-- returns NULL with the mappings of both sides as they were, or an address that it has mapped on both
-- sides and nothing else.
pub mmap_identity_lem :
    (ans : Answers) (m : Maps)
    → let (m', result) = mmap_identity ans m in
      (m'.host ≡ added result m.host)
      × (m'.sandbox ≡ added result m.sandbox)
      × (m'.host_fds ≡ m.host_fds)
unfolding mmap_identity
mmap_identity_lem ans m =
    known m.host m.sandbox m.host_fds ans.sym_mmap (make_memory ans ans.memfd m) (m, none)
      (make_memory-Mapped ans ans.memfd m) (refl, refl, refl)

drop_addr_first : (a : ℕ) (l l' : List ℕ) → l ≡ a ∷ l' → drop_addr a l ≡ l'
unfolding drop_addr
drop_addr_first a l l' e = ap (drop_addr a) e ∙ rw (same_number a)

-- Memory that `pbox_mmap_identity` returned is given back by a `pbox_munmap_identity` of which both
-- parts succeed: the mappings of both sides are as before the first call, and the result is 0.
pub munmap_identity-mmap_identity :
    (ans : Answers) (m m' : Maps) (a : ℕ)
    → mmap_identity ans m ≡ (m', some a)
    → let (m'', result) = munmap_identity true true a m' in
      (m''.host ≡ m.host)
      × (m''.sandbox ≡ m.sandbox)
      × (m''.host_fds ≡ m.host_fds)
      × (result ≡ pos 0)
unfolding munmap_identity sandbox_munmap host_munmap
munmap_identity-mmap_identity ans m m' a e =
    let (at_host, at_sandbox, fds) : (m'.host ≡ a ∷ m.host)
        × (m'.sandbox ≡ a ∷ m.sandbox)
        × (m'.host_fds ≡ m.host_fds) =
      rw e at (mmap_identity_lem ans m) in
    (
      drop_addr_first a m'.host m.host at_host,
      drop_addr_first a m'.sandbox m.sandbox at_sandbox,
      fds,
      refl,
    )
