-- ===== src/Builder/Flow.antt =====
-- How an instruction transfers control, `FlowEffect` of crates/cfglib/src/flow.rs.
pub data FlowEffect : Type 0 where
  fallthrough conditional_open conditional_alternate conditional_close switch_open switch_case
        switch_close loop_open loop_close break conditional_break continue conditional_continue
        return conditional_return call conditional_call terminate label declaration jump
        conditional_jump indirect_jump indirect_call may_throw :
      FlowEffect
