-- ===== src/Devices.antt =====
-- arch/x86/core/isr.c: `init_pic`, and arch/x86/drivers/timer.c: the interrupt timer.
mod Examples
pub mod Chips
pub mod Timer
use loof_os.Base.{ℕ, ◌+◌, ◌/◌, ◌%◌, ◌^◌, ◌==◌, if◌then◌else◌, u8, u16}
use loof_os.Machine.{Cmd, ok, pure, ◌>>=◌, ◌>>◌}
use loof_os.Registers.{GenRegisterSet, SegRegisterSet, InterruptFrame}
use loof_os.State.{Kernel, outportb}
use loof_os.Alloc.{kernel_base}
use loof_os.Idt.{idt_prot_intr, set_id}
use loof_os.Process.{Switch, stays, enters, switch_process}

abbrev pub irq_offset : ℕ
irq_offset = 0x20

abbrev pub pic_eoi : ℕ
pic_eoi = 0x20

abbrev pub pic_command1 : ℕ
pic_command1 = kernel_base + 0x20

abbrev pub pic_data1 : ℕ
pic_data1 = kernel_base + 0x21

abbrev pub pic_command2 : ℕ
pic_command2 = kernel_base + 0xa0

abbrev pub pic_data2 : ℕ
pic_data2 = kernel_base + 0xa1

unfoldable pub init_pic : Cmd Kernel (Unit {0})
init_pic = do
  outportb pic_command1 0x11
  outportb pic_command2 0x11
  outportb pic_data1 irq_offset
  outportb pic_data2 irq_offset
  outportb pic_data1 0x04
  outportb pic_data2 2
  outportb pic_data1 1
  outportb pic_data2 1
  outportb pic_data1 0
  outportb pic_data2 0

abbrev pub timer_channel0 : ℕ
timer_channel0 = kernel_base + 0x40

abbrev pub timer_mode : ℕ
timer_mode = kernel_base + 0x43

abbrev pub timer_freq : ℕ
timer_freq = 1193182

abbrev pub timer_int_freq : ℕ
timer_int_freq = 1000

unfoldable pub set_switching : ℕ → Cmd Kernel (Unit {0})
set_switching v k = ok tt (record k { switching_enabled = v })

-- The handler's address is the linker's.
unfoldable pub init_timer : ℕ → Cmd Kernel (Unit {0})
init_timer timer_handler_wrapper = do
  set_switching 0
  let divider = u16 (timer_freq / timer_int_freq)
  set_id irq_offset timer_handler_wrapper 0x08 idt_prot_intr 0 1
  outportb timer_mode 0x34
  outportb timer_channel0 (u8 (divider % 256))
  outportb timer_channel0 (u8 (divider / 2 ^ 8 % 256))

unfoldable pub enable_switching : Cmd Kernel (Unit {0})
enable_switching = set_switching 1

unfoldable pub get_switching : Cmd Kernel ℕ
get_switching k = ok k.switching_enabled k

-- The end of the handler, which is not reached from a switch.
unfoldable pub end_interrupt : Switch → Cmd Kernel Switch
end_interrupt stays = do outportb pic_command1 pic_eoi; pure stays
end_interrupt (enters seg_regs gen_regs frame directory) =
    pure (enters seg_regs gen_regs frame directory)

unfoldable pub timer_handler :
    ℕ → SegRegisterSet → GenRegisterSet → InterruptFrame → Cmd Kernel Switch
timer_handler rounds seg_regs gen_regs frame = do
  enabled ← get_switching
  switch ← if enabled == 0 then pure stays else switch_process rounds seg_regs gen_regs frame
  end_interrupt switch
