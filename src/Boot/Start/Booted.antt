-- ===== src/Boot/Start/Booted.antt =====
-- The state that the kernel hands to the scheduler.
use pepin_os.Base.{ℕ, ◌+◌, ◌*◌, ◌^◌, ◌≤◌, ◌<◌, ◌≡◌, ◌⊎◌, ◌==◌, true, false, if◌then◌else◌}
use pepin_os.Arch.Gdt.{init_gdt}
use pepin_os.Arch.Gdt.Segments.{Segments}
use pepin_os.Drivers.Screen.{print}
use pepin_os.Base.Int.{pos}
use pepin_os.Arch.Idt.{Stubs}
use pepin_os.Arch.Idt.Gates.{handler, IsGate}
use pepin_os.Base.Memory.{Memory}
use pepin_os.Base.Text.{codes}
use pepin_os.Boot.Start.{Machine, loader_of}
use pepin_os.Boot.Tasks.Prepare.{Runs as TaskRuns}
use pepin_os.Boot.Tasks.Code.{Registered}
use pepin_os.Drivers.Ide.{Drive}
use pepin_os.Fs.Ext2.Block.{IsMounted}
use pepin_os.Fs.Elf.Process.{CanLoad, Runs}
use pepin_os.Fs.Elf.Exec.{Refused, accepted, image}
use pepin_os.Process.Sched.Ring.{IsValid as InOrder}
use pepin_os.Boot.Start.Ready.{paged}

-- The state at the call of `sched_enter`, where `b` is the one in front of the shell.
pub record Booted (stubs : Stubs) (drive : Drive) (raw : ℕ → ℕ → ℕ) (user_task user_task_b : ℕ)
    (m b out : Machine) : Type 0 where
  pub first_task : TaskRuns user_task 0x30_0000 0x30_F000 0x20_5000 (paged stubs m) out.mem
  pub second_task : TaskRuns user_task_b 0x30_1000 0x30_E000 0x20_7000 (paged stubs m) out.mem
  pub gates :
      (v : ℕ)
      → v < 256
      → handler stubs v < 2 ^ 32
      → IsGate out.mem (0x500 + 8 * v) (handler stubs v) 0x08 (if v == 48 then 0xEF00 else 0x8E00)
  pub gate_table : (out.idtr.limite ≡ 2048) × (out.idtr.base ≡ 0x500)
  pub segment_table : (a : ℕ) → 0xD00 ≤ a → a < 0xD40 → out.mem a ≡ m.mem a
  pub segment_register : out.gdtr ≡ m.gdtr
  pub registered : Registered m.sched b.sched
  pub files : IsMounted b.vfs.fs
  pub nodes : (i : ℕ) → i < 8 → (b.vfs.node_pool i).used ≡ 0
  pub memory : CanLoad b.mem b.pmm b.sched
  pub shell :
      let name = codes "shell.elf" in
      ((accepted drive (raw 5) name (loader_of b) ≡ true)
        × Runs b.mem b.pmm b.sched (image drive (raw 5) name (loader_of b)) (loader_of out))
      ⊎ ((accepted drive (raw 5) name (loader_of b) ≡ false)
          × Refused (loader_of b) (loader_of out))

-- The memory and the registers that `_start` hands to `kmain`.
abbrev pub entered : (ktss_addr : ℕ) → Machine → Machine
entered ktss_addr m =
    let out = init_gdt ktss_addr m.mem in
    record m {
      screen =
          print (codes "PepinOS: iniciando...\n") (record (m.screen) { ky = pos 0; kattr = 0x0A });
      gdtr = out.0;
      mem = out.1;
    }
