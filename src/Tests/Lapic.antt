-- ===== src/Tests/Lapic.antt =====
-- A local interrupt controller at 0x1000 that is busy for two reads of its status after each command.
use boreal_os.Base.{
  ℕ, ◌+◌, ◌⊎◌, ◌-◌, ◌^◌, ◌<◌, ◌≡◌, ◌↔◌, refl, ◌&&◌, ◌==◌, ltb, if◌then◌else◌, some, bit_or, arith,
}
use boreal_os.Base.Store.{Store, store, store_self, store_ne}
use boreal_os.Base.Fields.{field}
use boreal_os.Interrupts.Lapic.{
  Device, Lapic, init, level, no_shorthand, fixed, edge, all_excluding_self, command_word,
  delivery_code, trigger_code, shorthand_code, send_eoi, send_ipi, read_register, register_address,
  set_up_registers,
}
use boreal_os.Interrupts.Idt.Irq.{Context, enter_irq, call_handler, irq_handler, irq_handler_lem}
use boreal_os.Interrupts.Lapic.Command.{command_word_lem}
use boreal_os.Interrupts.Lapic.Send.{Sent, send_ipi_iff}
use boreal_os.Interrupts.Lapic.Setup.{Keeps, lint1, lvt_offset, set_up_registers_lem}

abbrev World : Type 0
World = ℕ × Store

abbrev bus : Device World
bus = record {
  read = λ a w. (if a == 0x1300 && ltb 0 w.0 then 2 ^ 12 else w.1 a, (w.0 - 1, w.1));
  write = λ a v w. (if a == 0x1300 then 2 else w.0, store w.1 a v);
  rdmsr = λ msr w. (0, 0xFEE00900);
  wrmsr = λ msr high low w. w;
}

abbrev lapic : Lapic
lapic = record { mmio_base = 0x1000; shared_base = 0x1000 }

abbrev at_rest : World
at_rest = (0, λ a. 0)

-- An INIT interrupt, level triggered, without a shorthand.
command_word_example :
    (field 0 8 (command_word 0x40 init level no_shorthand) ≡ 0x40)
    × (field 8 3 (command_word 0x40 init level no_shorthand) ≡ delivery_code init)
    × (field 11 1 (command_word 0x40 init level no_shorthand) ≡ 0)
    × (field 12 2 (command_word 0x40 init level no_shorthand) ≡ 0)
    × (field 14 1 (command_word 0x40 init level no_shorthand) ≡ 1)
    × (field 15 1 (command_word 0x40 init level no_shorthand) ≡ trigger_code level)
    × (field 16 2 (command_word 0x40 init level no_shorthand) ≡ 0)
    × (field 18 2 (command_word 0x40 init level no_shorthand) ≡ shorthand_code no_shorthand)
    × (command_word 0x40 init level no_shorthand < 2 ^ 20)
command_word_example = command_word_lem 0x40 init level no_shorthand (omega arith)

abbrev sent : World
sent = (0, store (λ a. 0) 0x1300 (command_word 0x40 fixed edge all_excluding_self))

send_ipi_example :
    (send_ipi bus 4 lapic 0x40 0 fixed edge all_excluding_self at_rest ≡ some sent)
    ↔ Sent bus 4 lapic 0x40 0 fixed edge all_excluding_self at_rest sent
send_ipi_example = send_ipi_iff bus 4 lapic 0x40 0 fixed edge all_excluding_self at_rest sent

bus-Keeps : Keeps bus 0x1360
bus-Keeps = record {
  stored = λ v w. store_self w.1 0x1360 v;
  apart = λ a v w ne. store_ne w.1 a v 0x1360 ne;
  reads = λ a w. refl;
}

set_up_registers_example :
    (read_register bus lapic (lvt_offset lint1) (set_up_registers bus lapic at_rest)).0
    ≡ bit_or (read_register bus lapic (lvt_offset lint1) at_rest).0 (2 ^ 16)
unfolding register_address lvt_offset
set_up_registers_example = set_up_registers_lem bus lapic lint1 at_rest bus-Keeps

-- A handler that switches to other page tables. Those of a state lie at its address and a page more.
abbrev tables : ℕ → ℕ
tables state = state + 0x1000

abbrev meddle : ℕ → Context World → Context World
meddle handler s = record s { cr3 = 0xA000; page_state = 0x9000 }

abbrev context : Context World
context = record {
  cr3 = 0x6000;
  page_state = 0x5000;
  handlers = record {
    exception_handlers = λ v. 0;
    irq_handlers = λ v. if v == 3 then 0x77 else 0;
    registers_for_interrupts = λ v. 0;
  };
  world = at_rest;
}

irq_handler_example :
    let entered = enter_irq tables 0x1000 3 0x2000 context in
    let handled = call_handler meddle 3 entered in
    let left = irq_handler bus lapic tables 0x1000 meddle 3 0x2000 context in
    (entered.cr3 ≡ tables 0x1000)
    × (entered.page_state ≡ 0x1000)
    × (entered.handlers.registers_for_interrupts 3 ≡ 0x2000)
    × (left.page_state ≡ context.page_state)
    × ((left.cr3 ≡ tables context.page_state)
        ⊎ ((handled.page_state ≡ context.page_state) × (left.cr3 ≡ handled.cr3)))
    × (left.world ≡ (if 3 == 0xFF then handled.world else send_eoi bus lapic handled.world))
irq_handler_example = irq_handler_lem bus lapic tables 0x1000 meddle 3 0x2000 context
