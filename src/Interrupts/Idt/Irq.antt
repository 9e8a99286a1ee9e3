-- ===== src/Interrupts/Idt/Irq.antt =====
-- `IRQHandler` of kernel/Interrupts/IDT.cpp. A registered handler is code outside that file: what it
-- does is an argument.
use boreal_os.Base.{
  ℕ, ◌≡◌, refl, sym, ◌⊎◌, ==_iff, ◌∙◌, ap, ◌==◌, if◌then◌else◌, Bool-cases, inl, inr, arith,
}
use boreal_os.Base.Store.{store, store_self}
use boreal_os.Interrupts.Idt.{Handlers}
use boreal_os.Interrupts.Lapic.{Device, Lapic, send_eoi}

-- What a processor's interrupts work on: the register CR3, the state of the page tables that the kernel
-- keeps for the processor, the tables of handlers and the world of its local controller.
pub record Context (W : Type 0) : Type 0 where
  pub cr3 : ℕ
  pub page_state : ℕ
  pub handlers : Handlers
  pub world : W

-- `Paging::SwitchToPageTable`; `pml4_of` reads the `pml4` of a state.
unfoldable pub switch_to_page_table : {W : Type 0} → (ℕ → ℕ) → ℕ → Context W → Context W
switch_to_page_table pml4_of state s = record s { cr3 = pml4_of state; page_state = state }

-- Up to the call of the handler: the kernel's page tables are loaded, and the registers kept.
unfoldable pub enter_irq : {W : Type 0} → (ℕ → ℕ) → ℕ → ℕ → ℕ → Context W → Context W
enter_irq pml4_of kernel_state irq registers s =
    let s = switch_to_page_table pml4_of kernel_state s in
    record s {
      handlers = record s.handlers {
        registers_for_interrupts = store s.handlers.registers_for_interrupts irq registers;
      };
    }

unfoldable pub call_handler : {W : Type 0} → (ℕ → Context W → Context W) → ℕ → Context W → Context W
call_handler run_handler irq s =
    if s.handlers.irq_handlers irq == 0 then s else run_handler (s.handlers.irq_handlers irq) s

unfoldable pub restore_page_state : {W : Type 0} → (ℕ → ℕ) → ℕ → Context W → Context W
restore_page_state pml4_of backup s =
    if backup == s.page_state then s else switch_to_page_table pml4_of backup s

unfoldable pub end_irq : {W : Type 0} → Device W → Lapic → ℕ → Context W → Context W
end_irq dev l irq s = if irq == 0xFF then s else record s { world = send_eoi dev l s.world }

unfoldable pub irq_handler :
    {W : Type 0}
    → Device W
    → Lapic
    → (ℕ → ℕ)
    → ℕ
    → (ℕ → Context W → Context W)
    → ℕ
    → ℕ
    → Context W
    → Context W
irq_handler dev l pml4_of kernel_state run_handler irq registers s = end_irq dev l irq (
    restore_page_state pml4_of s.page_state
      (call_handler run_handler irq (enter_irq pml4_of kernel_state irq registers s)))

module _ {W : Type 0} (pml4_of : ℕ → ℕ) (backup : ℕ) (s : Context W) where
  page_state-restore : (restore_page_state pml4_of backup s).page_state ≡ backup
  unfolding restore_page_state switch_to_page_table
  page_state-restore = ground arith

  world-restore : (restore_page_state pml4_of backup s).world ≡ s.world
  unfolding restore_page_state switch_to_page_table
  world-restore = ground arith

  cr3-restore :
      ((restore_page_state pml4_of backup s).cr3 ≡ pml4_of backup)
      ⊎ ((s.page_state ≡ backup) × ((restore_page_state pml4_of backup s).cr3 ≡ s.cr3))
  unfolding restore_page_state switch_to_page_table
  cr3-restore = elim (Bool-cases (backup == s.page_state)) [
    | inr moved ↦ inl (rw moved refl)
    | inl same ↦ inr (sym ((==_iff _ _).0 same), rw same refl)
  ]

module _ {W : Type 0} (dev : Device W) (l : Lapic) (irq : ℕ) (s : Context W) where
  page_state-end_irq : (end_irq dev l irq s).page_state ≡ s.page_state
  unfolding end_irq
  page_state-end_irq = ground arith

  cr3-end_irq : (end_irq dev l irq s).cr3 ≡ s.cr3
  unfolding end_irq
  cr3-end_irq = ground arith

  world-end_irq :
      (end_irq dev l irq s).world ≡ (if irq == 0xFF then s.world else send_eoi dev l s.world)
  unfolding end_irq
  world-end_irq = elim (Bool-cases (irq == 0xFF)) [ inl e ↦ rw e refl | inr e ↦ rw e refl ]

-- `IRQHandler` runs the handler with the page tables of the kernel loaded and current, and with the
-- registers kept for its interrupt. The state of page tables that was current when it began is current
-- again afterwards, whatever the handler does; and its tables are loaded, or the handler left that very
-- state current, and CR3 is as the handler left it. The end of the interrupt is sent last, and for vector
-- 255 not at all.
pub irq_handler_lem :
    {W : Type 0} (dev : Device W) (l : Lapic) (pml4_of : ℕ → ℕ) (kernel_state : ℕ)
    (run_handler : ℕ → Context W → Context W) (irq registers : ℕ) (s : Context W)
    → let entered = enter_irq pml4_of kernel_state irq registers s in
      let handled = call_handler run_handler irq entered in
      let left = irq_handler dev l pml4_of kernel_state run_handler irq registers s in
      (entered.cr3 ≡ pml4_of kernel_state)
      × (entered.page_state ≡ kernel_state)
      × (entered.handlers.registers_for_interrupts irq ≡ registers)
      × (left.page_state ≡ s.page_state)
      × ((left.cr3 ≡ pml4_of s.page_state)
          ⊎ ((handled.page_state ≡ s.page_state) × (left.cr3 ≡ handled.cr3)))
      × (left.world ≡ (if irq == 0xFF then handled.world else send_eoi dev l handled.world))
unfolding irq_handler enter_irq switch_to_page_table
irq_handler_lem dev l pml4_of kernel_state run_handler irq registers s =
    let handled = call_handler run_handler irq (enter_irq pml4_of kernel_state irq registers s) in
    (
      refl,
      refl,
      store_self s.handlers.registers_for_interrupts irq registers,
      page_state-end_irq dev l irq _ ∙ page_state-restore pml4_of s.page_state handled,
      elim (cr3-restore pml4_of s.page_state handled) [
        | inl loaded ↦ inl (cr3-end_irq dev l irq _ ∙ loaded)
        | inr (current, kept) ↦ inr (current, cr3-end_irq dev l irq _ ∙ kept)
      ],
      world-end_irq dev l irq _
          ∙ ap (λ w. if irq == 0xFF then w else send_eoi dev l w)
              (world-restore pml4_of s.page_state handled),
    )
