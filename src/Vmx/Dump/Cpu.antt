-- ===== src/Vmx/Dump/Cpu.antt =====
-- The statements of `vmx_dump_cpu`, part by part.
use virt_learn_program.Base.{
  ℕ, ◌/◌, Bool, true, not, ◌&&◌, ◌||◌, if◌then◌else◌, List, [], ◌∷◌, ◌++◌, bit_and, bit_or, u16,
}
use virt_learn_program.Vmx.Dump.{
  Constants, w16, w32, w64, wl, Event, warns, value, known, Statement, assigns, printk, dump_sel,
  dump_dtsel, has, Controls, run, controls,
}
use virt_learn_program.Vmx.Dump.Names.{
  es, cs, ss, ds, fs, gs, ldtr, tr, gdtr, idtr, vm_entry_controls, vm_exit_controls,
  cpu_based_vm_exec_control, pin_based_vm_exec_control, guest_cr4, guest_ia32_efer,
  secondary_vm_exec_control, guest_cr0, cr0_read_shadow, cr0_guest_host_mask, cr4_read_shadow,
  cr4_guest_host_mask, guest_cr3, guest_pdptr0, guest_pdptr1, guest_pdptr2, guest_pdptr3, guest_rsp,
  guest_rip, guest_rflags, guest_dr7, guest_sysenter_esp, guest_sysenter_cs, guest_sysenter_eip,
  guest_ia32_pat, guest_ia32_debugctl, guest_pending_dbg_exceptions, guest_ia32_perf_global_ctrl,
  guest_bndcfgs, guest_interruptibility_info, guest_activity_state, guest_intr_status, host_rip,
  host_rsp, host_cs_selector, host_ss_selector, host_ds_selector, host_es_selector,
  host_fs_selector, host_gs_selector, host_tr_selector, host_fs_base, host_gs_base, host_tr_base,
  host_gdtr_base, host_idtr_base, host_cr0, host_cr3, host_cr4, host_ia32_sysenter_esp,
  host_ia32_sysenter_cs, host_ia32_sysenter_eip, host_ia32_efer, host_ia32_pat,
  host_ia32_perf_global_ctrl, exception_bitmap, page_fault_error_code_mask,
  page_fault_error_code_match, vm_entry_intr_info_field, vm_entry_exception_error_code,
  vm_entry_instruction_len, vm_exit_intr_info, vm_exit_intr_error_code, vm_exit_instruction_len,
  vm_exit_reason, exit_qualification, idt_vectoring_info_field, idt_vectoring_error_code,
  tsc_offset, tsc_multiplier, tpr_threshold, apic_access_addr, virtual_apic_page_addr,
  posted_intr_nv, ept_pointer, ple_gap, ple_window, virtual_processor_id,
}

module _ (k : Constants) (c : Controls) where
  -- The variables that are read at the start.
  unfoldable pub variables : List (Bool × Statement)
  variables =
      (true, assigns w32 vm_entry_controls)
      ∷ (true, assigns w32 vm_exit_controls)
      ∷ (true, assigns w32 cpu_based_vm_exec_control)
      ∷ (true, assigns w32 pin_based_vm_exec_control)
      ∷ (true, assigns wl guest_cr4)
      ∷ (true, assigns w64 guest_ia32_efer)
      ∷ (k.has_secondary, assigns w32 secondary_vm_exec_control)
      ∷ []

  -- The conditions of the optional lines.
  abbrev pub shows_pdptrs : Bool
  shows_pdptrs =
      has k.enable_ept c.secondary && (has k.cr4_pae c.cr4 && not (has k.efer_lma c.efer))

  abbrev pub shows_guest_pat : Bool
  shows_guest_pat =
      has (bit_or k.exit_save_pat k.exit_save_efer) c.vmexit_ctl
      || has (bit_or k.entry_load_pat k.entry_load_efer) c.vmentry_ctl

  abbrev pub shows_guest_perf : Bool
  shows_guest_perf = k.has_load_perf_global_ctrl && has k.entry_load_perf_global_ctrl c.vmentry_ctl

  abbrev pub shows_host_perf : Bool
  shows_host_perf = k.has_load_perf_global_ctrl && has k.exit_load_perf_global_ctrl c.vmexit_ctl

  unfoldable pub guest_registers : List (Bool × Statement)
  guest_registers =
      (
        true,
        printk (value wl guest_cr0 ∷ value wl cr0_read_shadow ∷ value wl cr0_guest_host_mask ∷ []),
      )
      ∷ (true, printk (known c.cr4 ∷ value wl cr4_read_shadow ∷ value wl cr4_guest_host_mask ∷ []))
      ∷ (true, printk (value wl guest_cr3 ∷ []))
      ∷ (shows_pdptrs, printk (value w64 guest_pdptr0 ∷ value w64 guest_pdptr1 ∷ []))
      ∷ (shows_pdptrs, printk (value w64 guest_pdptr2 ∷ value w64 guest_pdptr3 ∷ []))
      ∷ (true, printk (value wl guest_rsp ∷ value wl guest_rip ∷ []))
      ∷ (true, printk (value wl guest_rflags ∷ value wl guest_dr7 ∷ []))
      ∷ (
        true,
        printk (
            value wl guest_sysenter_esp
            ∷ value w32 guest_sysenter_cs
            ∷ value wl guest_sysenter_eip
            ∷ []),
      )
      ∷ []

  unfoldable pub guest_segments : List (Bool × Statement)
  guest_segments =
      (true, dump_sel cs)
      ∷ (true, dump_sel ds)
      ∷ (true, dump_sel ss)
      ∷ (true, dump_sel es)
      ∷ (true, dump_sel fs)
      ∷ (true, dump_sel gs)
      ∷ (true, dump_dtsel gdtr)
      ∷ (true, dump_sel ldtr)
      ∷ (true, dump_dtsel idtr)
      ∷ (true, dump_sel tr)
      ∷ []

  unfoldable pub guest_rest : List (Bool × Statement)
  guest_rest =
      (shows_guest_pat, printk (known c.efer ∷ value w64 guest_ia32_pat ∷ []))
      ∷ (true, printk (value w64 guest_ia32_debugctl ∷ value wl guest_pending_dbg_exceptions ∷ []))
      ∷ (shows_guest_perf, printk (value w64 guest_ia32_perf_global_ctrl ∷ []))
      ∷ (has k.entry_load_bndcfgs c.vmentry_ctl, printk (value w64 guest_bndcfgs ∷ []))
      ∷ (true, printk (value w32 guest_interruptibility_info ∷ value w32 guest_activity_state ∷ []))
      ∷ (has k.virtual_intr_delivery c.secondary, printk (value w16 guest_intr_status ∷ []))
      ∷ []

  unfoldable pub host_state : List (Bool × Statement)
  host_state =
      (true, printk (value wl host_rip ∷ value wl host_rsp ∷ []))
      ∷ (
        true,
        printk (
            value w16 host_cs_selector
            ∷ value w16 host_ss_selector
            ∷ value w16 host_ds_selector
            ∷ value w16 host_es_selector
            ∷ value w16 host_fs_selector
            ∷ value w16 host_gs_selector
            ∷ value w16 host_tr_selector
            ∷ []),
      )
      ∷ (true, printk (value wl host_fs_base ∷ value wl host_gs_base ∷ value wl host_tr_base ∷ []))
      ∷ (true, printk (value wl host_gdtr_base ∷ value wl host_idtr_base ∷ []))
      ∷ (true, printk (value wl host_cr0 ∷ value wl host_cr3 ∷ value wl host_cr4 ∷ []))
      ∷ (
        true,
        printk (
            value wl host_ia32_sysenter_esp
            ∷ value w32 host_ia32_sysenter_cs
            ∷ value wl host_ia32_sysenter_eip
            ∷ []),
      )
      ∷ (
        has (bit_or k.exit_load_pat k.exit_load_efer) c.vmexit_ctl,
        printk (value w64 host_ia32_efer ∷ value w64 host_ia32_pat ∷ []),
      )
      ∷ (shows_host_perf, printk (value w64 host_ia32_perf_global_ctrl ∷ []))
      ∷ []

  unfoldable pub control_state : List (Bool × Statement)
  control_state =
      (true, printk (known c.pin_based ∷ known c.cpu_based ∷ known c.secondary ∷ []))
      ∷ (true, printk (known c.vmentry_ctl ∷ known c.vmexit_ctl ∷ []))
      ∷ (
        true,
        printk (
            value w32 exception_bitmap
            ∷ value w32 page_fault_error_code_mask
            ∷ value w32 page_fault_error_code_match
            ∷ []),
      )
      ∷ (
        true,
        printk (
            value w32 vm_entry_intr_info_field
            ∷ value w32 vm_entry_exception_error_code
            ∷ value w32 vm_entry_instruction_len
            ∷ []),
      )
      ∷ (
        true,
        printk (
            value w32 vm_exit_intr_info
            ∷ value w32 vm_exit_intr_error_code
            ∷ value w32 vm_exit_instruction_len
            ∷ []),
      )
      ∷ (true, printk (value w32 vm_exit_reason ∷ value wl exit_qualification ∷ []))
      ∷ (
        true,
        printk (value w32 idt_vectoring_info_field ∷ value w32 idt_vectoring_error_code ∷ []),
      )
      ∷ (true, printk (value w64 tsc_offset ∷ []))
      ∷ []

  -- `status` is what is read of GUEST_INTR_STATUS.
  unfoldable pub optional_controls : ℕ → List (Bool × Statement)
  optional_controls status =
      (has k.tsc_scaling c.secondary, printk (value w64 tsc_multiplier ∷ []))
      ∷ (
        has k.tpr_shadow c.cpu_based && has k.virtual_intr_delivery c.secondary,
        assigns w16 guest_intr_status,
      )
      ∷ (
        has k.tpr_shadow c.cpu_based && has k.virtual_intr_delivery c.secondary,
        printk (known (status / 256) ∷ known (bit_and status 0xff) ∷ []),
      )
      ∷ (has k.tpr_shadow c.cpu_based, printk (value w32 tpr_threshold ∷ []))
      ∷ (
        has k.tpr_shadow c.cpu_based && has k.virtualize_apic_accesses c.secondary,
        printk (value w64 apic_access_addr ∷ []),
      )
      ∷ (has k.tpr_shadow c.cpu_based, printk (value w64 virtual_apic_page_addr ∷ []))
      ∷ (has k.posted_intr c.pin_based, printk (value w16 posted_intr_nv ∷ []))
      ∷ (has k.enable_ept c.secondary, printk (value w64 ept_pointer ∷ []))
      ∷ (
        has k.pause_loop_exiting c.secondary,
        printk (value w32 ple_gap ∷ value w32 ple_window ∷ []),
      )
      ∷ (has k.enable_vpid c.secondary, printk (value w16 virtual_processor_id ∷ []))
      ∷ []

  unfoldable pub statements : ℕ → List (Bool × Statement)
  statements status =
      variables
      ++ guest_registers
      ++ guest_segments
      ++ guest_rest
      ++ host_state
      ++ control_state
      ++ optional_controls status

-- `vmx_dump_cpu`, given the parameter `dump_invalid_vmcs` and what each field holds.
unfoldable pub vmx_dump_cpu : Constants → Bool → (ℕ → ℕ) → List Event
unfolding statements
vmx_dump_cpu k dump_invalid_vmcs read =
    if not dump_invalid_vmcs
    then warns ∷ []
    else run k read (statements k (controls k read) (u16 (read (k.enc guest_intr_status))))
