-- ===== src/Vmx/Dump/Names.antt =====
-- The fields of the control structure that vmx_mod/vmx.c names in its dump.
use virt_learn_program.Base.{ℕ, ◌+◌, ◌*◌}

-- The segment registers of the guest, and its descriptor tables.
pub data Segment : Type 0 where
  es cs ss ds fs gs ldtr tr : Segment

pub data Table : Type 0 where
  gdtr idtr : Table

-- `selector es` is GUEST_ES_SELECTOR, `dt_limit gdtr` GUEST_GDTR_LIMIT, and so on.
pub data Field : Type 0 where
  selector ar_bytes limit base : Segment → Field
  dt_limit dt_base : Table → Field
  vm_entry_controls vm_exit_controls cpu_based_vm_exec_control : Field
  pin_based_vm_exec_control guest_cr4 guest_ia32_efer secondary_vm_exec_control : Field
  guest_cr0 cr0_read_shadow cr0_guest_host_mask cr4_read_shadow : Field
  cr4_guest_host_mask guest_cr3 guest_pdptr0 guest_pdptr1 guest_pdptr2 : Field
  guest_pdptr3 guest_rsp guest_rip guest_rflags guest_dr7 guest_sysenter_esp : Field
  guest_sysenter_cs guest_sysenter_eip guest_ia32_pat guest_ia32_debugctl : Field
  guest_pending_dbg_exceptions guest_ia32_perf_global_ctrl guest_bndcfgs : Field
  guest_interruptibility_info guest_activity_state guest_intr_status host_rip : Field
  host_rsp host_cs_selector host_ss_selector host_ds_selector host_es_selector : Field
  host_fs_selector host_gs_selector host_tr_selector host_fs_base host_gs_base : Field
  host_tr_base host_gdtr_base host_idtr_base host_cr0 host_cr3 host_cr4 : Field
  host_ia32_sysenter_esp host_ia32_sysenter_cs host_ia32_sysenter_eip : Field
  host_ia32_efer host_ia32_pat host_ia32_perf_global_ctrl exception_bitmap : Field
  page_fault_error_code_mask page_fault_error_code_match vm_entry_intr_info_field : Field
  vm_entry_exception_error_code vm_entry_instruction_len vm_exit_intr_info : Field
  vm_exit_intr_error_code vm_exit_instruction_len vm_exit_reason : Field
  exit_qualification idt_vectoring_info_field idt_vectoring_error_code tsc_offset : Field
  tsc_multiplier tpr_threshold apic_access_addr virtual_apic_page_addr : Field
  posted_intr_nv ept_pointer ple_gap ple_window virtual_processor_id : Field

abbrev pub segment_number : Segment → ℕ
segment_number es = 0
segment_number cs = 1
segment_number ss = 2
segment_number ds = 3
segment_number fs = 4
segment_number gs = 5
segment_number ldtr = 6
segment_number tr = 7

abbrev pub table_number : Table → ℕ
table_number gdtr = 0
table_number idtr = 1

-- A numbering of the fields, by which two of them are told apart.
abbrev pub position : Field → ℕ
position (selector s) = 4 * segment_number s
position (ar_bytes s) = 4 * segment_number s + 1
position (limit s) = 4 * segment_number s + 2
position (base s) = 4 * segment_number s + 3
position (dt_limit t) = 2 * table_number t + 32
position (dt_base t) = 2 * table_number t + 33
position vm_entry_controls = 36
position vm_exit_controls = 37
position cpu_based_vm_exec_control = 38
position pin_based_vm_exec_control = 39
position guest_cr4 = 40
position guest_ia32_efer = 41
position secondary_vm_exec_control = 42
position guest_cr0 = 43
position cr0_read_shadow = 44
position cr0_guest_host_mask = 45
position cr4_read_shadow = 46
position cr4_guest_host_mask = 47
position guest_cr3 = 48
position guest_pdptr0 = 49
position guest_pdptr1 = 50
position guest_pdptr2 = 51
position guest_pdptr3 = 52
position guest_rsp = 53
position guest_rip = 54
position guest_rflags = 55
position guest_dr7 = 56
position guest_sysenter_esp = 57
position guest_sysenter_cs = 58
position guest_sysenter_eip = 59
position guest_ia32_pat = 60
position guest_ia32_debugctl = 61
position guest_pending_dbg_exceptions = 62
position guest_ia32_perf_global_ctrl = 63
position guest_bndcfgs = 64
position guest_interruptibility_info = 65
position guest_activity_state = 66
position guest_intr_status = 67
position host_rip = 68
position host_rsp = 69
position host_cs_selector = 70
position host_ss_selector = 71
position host_ds_selector = 72
position host_es_selector = 73
position host_fs_selector = 74
position host_gs_selector = 75
position host_tr_selector = 76
position host_fs_base = 77
position host_gs_base = 78
position host_tr_base = 79
position host_gdtr_base = 80
position host_idtr_base = 81
position host_cr0 = 82
position host_cr3 = 83
position host_cr4 = 84
position host_ia32_sysenter_esp = 85
position host_ia32_sysenter_cs = 86
position host_ia32_sysenter_eip = 87
position host_ia32_efer = 88
position host_ia32_pat = 89
position host_ia32_perf_global_ctrl = 90
position exception_bitmap = 91
position page_fault_error_code_mask = 92
position page_fault_error_code_match = 93
position vm_entry_intr_info_field = 94
position vm_entry_exception_error_code = 95
position vm_entry_instruction_len = 96
position vm_exit_intr_info = 97
position vm_exit_intr_error_code = 98
position vm_exit_instruction_len = 99
position vm_exit_reason = 100
position exit_qualification = 101
position idt_vectoring_info_field = 102
position idt_vectoring_error_code = 103
position tsc_offset = 104
position tsc_multiplier = 105
position tpr_threshold = 106
position apic_access_addr = 107
position virtual_apic_page_addr = 108
position posted_intr_nv = 109
position ept_pointer = 110
position ple_gap = 111
position ple_window = 112
position virtual_processor_id = 113
