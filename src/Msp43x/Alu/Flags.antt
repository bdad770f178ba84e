-- ===== src/Msp43x/Alu/Flags.antt =====
-- The flags that an instruction of two operands leaves (S3 of `Execute` in
-- src/newmadrid/msp43x/cpu.go), against a description of the flags as a record.
use formaldehyde.Prelude.{
  ℕ, ◌+◌, ◌/◌, ◌%◌, ◌<◌, ◌≡◌, ◌≢◌, refl, arith, Bool, true, ltb, leb, ◌==◌, if◌then◌else◌, ◌∙◌, ◌⊎◌,
  inl, inr, not,
}
use formaldehyde.Bits.{bit_and_bit}
use formaldehyde.Msp43x.Constants.Op2
use formaldehyde.Msp43x.Cpu.{Cpu, set_c, set_z, set_n, set_v}
use formaldehyde.Msp43x.Cpu.Flags.{flags, flags-set_c, flags-set_z, flags-set_n, flags-set_v}
use formaldehyde.Msp43x.Alu.{
  is_add, is_subtract, is_logic, double_c, double_v, double_n, double_z, double_flags,
}

abbrev pub bit_of : Bool → ℕ
bit_of b = if b then 1 else 0

module _ {M : Type 0} where
  add_c :
      (op : ℕ) (byte : Bool) (src dst tmp : ℕ) (cpu : Cpu M)
      → is_add op ≡ true
      → flags (double_c op byte src dst tmp cpu)
        ≡ record (flags cpu) { c = bit_of (ltb (if byte then 0xff else 0xffff) (src + dst)) }
  unfolding double_c
  add_c op byte src dst tmp cpu h = ground (arith, flags-set_c 0 cpu, flags-set_c 1 cpu)

  subtract_c :
      (op : ℕ) (byte : Bool) (src dst tmp : ℕ) (cpu : Cpu M)
      → is_subtract op ≡ true
      → flags (double_c op byte src dst tmp cpu) ≡ record (flags cpu) { c = bit_of (leb src dst) }
  unfolding double_c
  subtract_c op byte src dst tmp cpu h = ground (arith, flags-set_c 0 cpu, flags-set_c 1 cpu)

  logic_c :
      (op : ℕ) (byte : Bool) (src dst tmp : ℕ) (cpu : Cpu M)
      → is_logic op ≡ true
      → flags (double_c op byte src dst tmp cpu)
        ≡ record (flags cpu) { c = bit_of (not (tmp == 0)) }
  unfolding double_c
  logic_c op byte src dst tmp cpu h = ground (arith, flags-set_c 0 cpu, flags-set_c 1 cpu)

  -- `double_v` changes at most the overflow flag.
  keeps_v :
      (op src dst tmp : ℕ) (cpu : Cpu M)
      → flags (double_v op src dst tmp cpu)
        ≡ record (flags cpu) { v = (flags (double_v op src dst tmp cpu)).v }
  unfolding double_v
  keeps_v op src dst tmp cpu = ground (arith, flags-set_v 0 cpu, flags-set_v 1 cpu)

  arith_n :
      (op tmp : ℕ) (byte : Bool) (cpu : Cpu M)
      → (is_add op ≡ true) ⊎ (is_subtract op ≡ true)
      → tmp < 65536
      → flags (double_n op byte tmp cpu) ≡ record (flags cpu) { n = bit_of (leb 32768 tmp); v = 0 }
  unfolding double_n
  arith_n op tmp byte cpu h fits = ground (arith, flags-set_n 0 cpu, flags-set_n 1 cpu)

  logic_n :
      (op tmp : ℕ) (byte : Bool) (cpu : Cpu M)
      → is_logic op ≡ true
      → flags (double_n op byte tmp cpu)
        ≡ record (flags cpu) { n = tmp / (if byte then 128 else 32768) % 2; v = 0 }
  unfolding double_n
  logic_n op tmp byte cpu h =
      ground (arith, flags-set_n 0 cpu, flags-set_n 1 cpu, bit_and_bit 7 tmp, bit_and_bit 15 tmp)

  z_lem :
      (op tmp : ℕ) (cpu : Cpu M)
      → (is_add op ≡ true) ⊎ (is_subtract op ≡ true) ⊎ (is_logic op ≡ true)
      → flags (double_z op tmp cpu) ≡ record (flags cpu) { z = bit_of (tmp == 0); v = 0 }
  unfolding double_z
  z_lem op tmp cpu h = ground (arith, flags-set_z 0 cpu, flags-set_z 1 cpu)

  -- After an addition: carry when the sum of the operands passes the width, zero and negative by the
  -- 16-bit result, overflow always clear, and CPUOFF as before. The carry does not count the carry
  -- that `ADDC` adds.
  pub flags-add :
      (op : ℕ) (byte : Bool) (src dst tmp : ℕ) (cpu : Cpu M)
      → is_add op ≡ true
      → tmp < 65536
      → flags (double_flags op byte src dst tmp cpu) ≡ record {
        c = bit_of (ltb (if byte then 0xff else 0xffff) (src + dst));
        z = bit_of (tmp == 0);
        n = bit_of (leb 32768 tmp);
        off = (flags cpu).off;
        v = 0;
      }
  unfolding double_flags
  flags-add op byte src dst tmp cpu h fits =
      let c1 = double_c op byte src dst tmp cpu in
      let c2 = double_v op src dst tmp c1 in
      let c3 = double_n op byte tmp c2 in
      cc (
        z_lem op tmp c3 (inl h),
        arith_n op tmp byte c2 (inl h) fits,
        keeps_v op src dst tmp c1,
        add_c op byte src dst tmp cpu h,
      )

  -- After a subtraction or a comparison: carry when nothing is borrowed, zero and negative by the
  -- 16-bit result, overflow always clear, and CPUOFF as before.
  pub flags-subtract :
      (op : ℕ) (byte : Bool) (src dst tmp : ℕ) (cpu : Cpu M)
      → is_subtract op ≡ true
      → tmp < 65536
      → flags (double_flags op byte src dst tmp cpu) ≡ record {
        c = bit_of (leb src dst);
        z = bit_of (tmp == 0);
        n = bit_of (leb 32768 tmp);
        off = (flags cpu).off;
        v = 0;
      }
  unfolding double_flags
  flags-subtract op byte src dst tmp cpu h fits =
      let c1 = double_c op byte src dst tmp cpu in
      let c2 = double_v op src dst tmp c1 in
      let c3 = double_n op byte tmp c2 in
      cc (
        z_lem op tmp c3 (inr (inl h)),
        arith_n op tmp byte c2 (inr h) fits,
        keeps_v op src dst tmp c1,
        subtract_c op byte src dst tmp cpu h,
      )

  -- After `BIT`, `AND` and `XOR`: carry is the opposite of zero, negative is the top bit of the
  -- instruction's width, overflow is always clear, and CPUOFF is as before.
  flags-logic :
      (op : ℕ) (byte : Bool) (src dst tmp : ℕ) (cpu : Cpu M)
      → is_logic op ≡ true
      → flags (double_flags op byte src dst tmp cpu) ≡ record {
        c = bit_of (not (tmp == 0));
        z = bit_of (tmp == 0);
        n = tmp / (if byte then 128 else 32768) % 2;
        off = (flags cpu).off;
        v = 0;
      }
  unfolding double_flags
  flags-logic op byte src dst tmp cpu h =
      let c1 = double_c op byte src dst tmp cpu in
      let c2 = double_v op src dst tmp c1 in
      let c3 = double_n op byte tmp c2 in
      cc (
        z_lem op tmp c3 (inr (inr h)),
        logic_n op tmp byte c2 h,
        keeps_v op src dst tmp c1,
        logic_c op byte src dst tmp cpu h,
      )

  -- The flags live in one register: nothing else of the machine changes.
  abbrev pub SameBeside : ℕ → Cpu M → Cpu M → Type 0
  SameBeside r after before = (after.regs r ≡ before.regs r) × (after.memory ≡ before.memory)

  setters_frame :
      (r i : ℕ) (cpu : Cpu M)
      → r ≢ 2
      → SameBeside r (set_c i cpu) cpu
        × SameBeside r (set_z i cpu) cpu
        × SameBeside r (set_n i cpu) cpu
        × SameBeside r (set_v i cpu) cpu
  unfolding set_c set_v set_n set_z
  setters_frame r i cpu ne =
      ((ground arith, refl), (ground arith, refl), (ground arith, refl), (ground arith, refl))

  c_frame :
      (op : ℕ) (byte : Bool) (src dst tmp r : ℕ) (cpu : Cpu M)
      → r ≢ 2
      → SameBeside r (double_c op byte src dst tmp cpu) cpu
  unfolding double_c
  c_frame op byte src dst tmp r cpu ne =
      ground (arith, setters_frame r 0 cpu ne, setters_frame r 1 cpu ne)

  v_frame :
      (op src dst tmp r : ℕ) (cpu : Cpu M) → r ≢ 2 → SameBeside r (double_v op src dst tmp cpu) cpu
  unfolding double_v
  v_frame op src dst tmp r cpu ne =
      ground (arith, setters_frame r 0 cpu ne, setters_frame r 1 cpu ne)

  n_frame :
      (op : ℕ) (byte : Bool) (tmp r : ℕ) (cpu : Cpu M)
      → r ≢ 2
      → SameBeside r (double_n op byte tmp cpu) cpu
  unfolding double_n
  n_frame op byte tmp r cpu ne = ground (arith, setters_frame r 0 cpu ne, setters_frame r 1 cpu ne)

  z_frame : (op tmp r : ℕ) (cpu : Cpu M) → r ≢ 2 → SameBeside r (double_z op tmp cpu) cpu
  unfolding double_z
  z_frame op tmp r cpu ne = ground (arith, setters_frame r 0 cpu ne, setters_frame r 1 cpu ne)

  pub double_flags-frame :
      (op : ℕ) (byte : Bool) (src dst tmp r : ℕ) (cpu : Cpu M)
      → r ≢ 2
      → SameBeside r (double_flags op byte src dst tmp cpu) cpu
  unfolding double_flags
  double_flags-frame op byte src dst tmp r cpu ne =
      let c1 = double_c op byte src dst tmp cpu in
      let c2 = double_v op src dst tmp c1 in
      let c3 = double_n op byte tmp c2 in
      let (z, z') = z_frame op tmp r c3 ne in
      let (n, n') = n_frame op byte tmp r c2 ne in
      let (v, v') = v_frame op src dst tmp r c1 ne in
      let (c, c') = c_frame op byte src dst tmp r cpu ne in
      (z ∙ (n ∙ (v ∙ c)), z' ∙ (n' ∙ (v' ∙ c')))

  -- `BIC` and `DADD` set no flag.
  pub double_flags-none :
      (op : ℕ) (byte : Bool) (src dst tmp : ℕ) (cpu : Cpu M)
      → (op ≡ Op2.bic) ⊎ (op ≡ Op2.dadd)
      → double_flags op byte src dst tmp cpu ≡ cpu
  unfolding double_flags double_c double_v double_n double_z
  double_flags-none op byte src dst tmp cpu (inl h) = rw h refl
  double_flags-none op byte src dst tmp cpu (inr h) = rw h refl
