-- ===== src/Kd11ea/Micro/Widths.antt =====
-- The registers of the processor stay within their widths (pdp11/kd11ea/kd11ea.c keeps them in
-- `uint16_t`, and the counter in six bits by its masks).
use ll.Prelude.{
  ℕ, ◌+◌, ◌-◌, ◌%◌, ◌^◌, ◌<◌, arith, Bool, true, false, ◌&&◌, not, truthy, if◌then◌else◌, ◌==◌, bit,
  bit_and, bit_or, bit_and-le, bit_or-lt,
}
use ll.Kd11ea.Ucode.{uw_misc, uw_spa_dst_sel, misc_load_count, misc_clk_count}
use ll.Kd11ea.Micro.{Cpu, put_sp, spa_resolve, spa_rba}
use ll.Kd11ea.Micro.Gates.{k2_3_dbe_h}
use ll.Kd11ea.Micro.Wiring.{e87_enab_dbe_l, e87_enab_ovx_l}
use ll.Kd11ea.Micro.Wires.{Wires}
use ll.Kd11ea.Micro.Transfer.{Transferred}
use ll.Kd11ea.Micro.Misc.{
  double_error, overflow, load_ir, load_psw, load_cc, cc_of, enab_stov, clk_count, misc_load,
  write_sp,
}
use ll.Kd11ea.Micro.Step.{loads}

-- The scratchpad, the IR, the PSW, the data latch and the counter.
pub record IsValid (cpu : Cpu) : Type 0 where
  pub sp-lt : (i : ℕ) → cpu.sp i < 2 ^ 16
  pub ir-lt : cpu.ir < 2 ^ 16
  pub psw-lt : cpu.psw < 2 ^ 16
  pub data-lt : cpu.unibus_data < 2 ^ 16
  pub count-lt : cpu.count < 2 ^ 6

valid :
    (cpu : Cpu)
    → ((i : ℕ) → cpu.sp i < 2 ^ 16)
    → cpu.ir < 2 ^ 16
    → cpu.psw < 2 ^ 16
    → cpu.unibus_data < 2 ^ 16
    → cpu.count < 2 ^ 6
    → IsValid cpu
valid cpu sp ir psw word count = record {
  sp-lt = sp;
  ir-lt = ir;
  psw-lt = psw;
  data-lt = word;
  count-lt = count;
}

if-IsValid : (b : Bool) (x y : Cpu) → IsValid x → IsValid y → IsValid (if b then x else y)
if-IsValid true x y hx hy = hx
if-IsValid false x y hx hy = hy

if-lt : (b : Bool) (x y n : ℕ) → x < n → y < n → (if b then x else y) < n
if-lt true x y n hx hy = hx
if-lt false x y n hx hy = hy

masked : (x m : ℕ) → m < 2 ^ 16 → bit_and x m < 2 ^ 16
masked x m h = omega (arith, bit_and-le x m)

load_ir-IsValid : (cpu : Cpu) → IsValid cpu → IsValid (load_ir cpu)
unfolding load_ir
load_ir-IsValid cpu h = valid _ h.sp-lt h.data-lt h.psw-lt h.data-lt h.count-lt

load_psw-IsValid : (w : Wires) (cpu : Cpu) → IsValid cpu → IsValid (load_psw w cpu)
unfolding load_psw
load_psw-IsValid w cpu h =
    valid _ h.sp-lt h.ir-lt (masked _ 0xf0ff (omega arith)) h.data-lt h.count-lt

load_cc-IsValid :
    (w : Wires) (psw_low : Bool) (ss_out rot_cbit : ℕ) (cpu : Cpu)
    → IsValid cpu
    → IsValid (load_cc w psw_low ss_out rot_cbit cpu)
unfolding load_cc
load_cc-IsValid w psw_low ss_out rot_cbit cpu h =
    let low_lt : ss_out % 16 < 2 ^ 16 = omega arith in
    let cc_lt : cc_of w cpu rot_cbit < 2 ^ 16 = omega arith in
    valid _ h.sp-lt h.ir-lt
      (bit_or-lt 16 _ _ (masked cpu.psw 0xfff0 (omega arith)) (if-lt _ _ _ _ low_lt cc_lt))
      h.data-lt h.count-lt

stov-IsValid :
    (w : Wires) (psw_before : ℕ) (cpu : Cpu) → IsValid cpu → IsValid (enab_stov w psw_before cpu)
unfolding enab_stov
stov-IsValid w psw_before cpu h =
    if-IsValid
      (cpu.stov_en
        && not (truthy (bit 15 psw_before))
        && 15 - w.spa_src % 16 == 6
        && bit_and w.alu_result 0xff00 == 0)
      (record cpu { stov = true }) cpu (valid _ h.sp-lt h.ir-lt h.psw-lt h.data-lt h.count-lt) h

counted : (cpu : Cpu) (n : ℕ) → IsValid cpu → n < 2 ^ 6 → IsValid (record cpu { count = n })
counted cpu n h lt = valid _ h.sp-lt h.ir-lt h.psw-lt h.data-lt lt

misc_load-IsValid :
    (w : Wires) (nxm_abort psw_low : Bool) (ss_out rot_cbit psw_before : ℕ) (cpu : Cpu)
    → IsValid cpu
    → IsValid (misc_load w nxm_abort psw_low ss_out rot_cbit psw_before cpu)
unfolding misc_load enab_stov clk_count
misc_load-IsValid w nxm_abort psw_low ss_out rot_cbit psw_before cpu h =
    let loaded : ss_out % 2 ^ 6 < 2 ^ 6 = omega arith in
    let up : (cpu.count + 1) % 2 ^ 6 < 2 ^ 6 = omega arith in
    let down : (cpu.count + 63) % 2 ^ 6 < 2 ^ 6 = omega arith in
    if-IsValid nxm_abort _ _ h (
      if-IsValid _ _ _ (load_ir-IsValid cpu h) (
        if-IsValid _ _ _ (load_psw-IsValid w cpu h) (
          if-IsValid _ _ _ (load_cc-IsValid w psw_low ss_out rot_cbit cpu h) (
            if-IsValid _ _ _ (stov-IsValid w psw_before cpu h) (
              if-IsValid (uw_misc w.uw == misc_load_count) _ _ (counted cpu _ h loaded) (
                if-IsValid (uw_misc w.uw == misc_clk_count) _ _
                  (counted cpu _ h (if-lt (truthy (bit 5 cpu.count)) _ _ _ up down)) h))))))

write_sp-IsValid :
    (w : Wires) (nxm_abort : Bool) (ss_out : ℕ) (cpu : Cpu)
    → ss_out < 2 ^ 16
    → IsValid cpu
    → IsValid (write_sp w nxm_abort ss_out cpu)
unfolding write_sp
write_sp-IsValid w nxm_abort ss_out cpu hs h =
    let slot = spa_resolve cpu (uw_spa_dst_sel w.uw) w.uw % 16 in
    let byte : bit_or (bit_and (cpu.sp slot) 0xff00) (ss_out % 2 ^ 8) < 2 ^ 16 =
      bit_or-lt 16 _ _ (masked (cpu.sp slot) 0xff00 (omega arith)) (omega arith) in
    let word =
      if truthy (bit 0 w.e80)
      then bit_or (bit_and (cpu.sp slot) 0xff00) (ss_out % 2 ^ 8)
      else ss_out in
    let word_lt : word < 2 ^ 16 = if-lt (truthy (bit 0 w.e80)) _ ss_out _ byte hs in
    let written : IsValid (record cpu { sp = put_sp cpu.sp slot word }) =
      valid _ (λ i. if-lt (i == slot) word (cpu.sp i) _ word_lt (h.sp-lt i)) h.ir-lt h.psw-lt
        h.data-lt h.count-lt in
    if-IsValid (not (uw_spa_dst_sel w.uw == spa_rba) && not nxm_abort) _ cpu written h

error-IsValid :
    (set_be_l : Bool) (w : Wires) (cpu : Cpu) → IsValid cpu → IsValid (double_error set_be_l w cpu)
unfolding double_error
error-IsValid set_be_l w cpu h =
    let cleared = λ (halt : Bool).
      valid (record cpu { ir = 0; serv_ir = false; halt_rqst = halt; halted = halt }) h.sp-lt
        (omega arith) h.psw-lt h.data-lt h.count-lt in
    if-IsValid (k2_3_dbe_h set_be_l (truthy (e87_enab_dbe_l w.e87))) _ cpu (cleared _) h

overflow-IsValid :
    (w : Wires) (b_before : ℕ) (cpu : Cpu) → IsValid cpu → IsValid (overflow w b_before cpu)
unfolding overflow
overflow-IsValid w b_before cpu h =
    let kept = λ (ovx : Bool).
      valid (record cpu { ovx = ovx }) h.sp-lt h.ir-lt h.psw-lt h.data-lt h.count-lt in
    if-IsValid (truthy (e87_enab_ovx_l w.e87)) cpu _ h (kept _)

-- Whatever the micro-word loads, the words of the scratchpad, the IR, the PSW and the data latch
-- stay below 2^16 and the counter below 2^6, as long as the data path gives a word.
pub loads-IsValid :
    {W : Type 0} (w : Wires) (before : Cpu) (t : Transferred W) (cpu : Cpu)
    → t.ss_out < 2 ^ 16
    → IsValid cpu
    → IsValid (loads w before t cpu)
unfolding loads
loads-IsValid w before t cpu hs h = write_sp-IsValid w t.nxm_abort t.ss_out _ hs (
    misc_load-IsValid w t.nxm_abort _ t.ss_out before.rot_cbit before.psw _
      (overflow-IsValid w before.b_reg _ (error-IsValid t.set_be_l w cpu h)))
