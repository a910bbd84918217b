-- ===== src/Bip110/Context.antt =====
-- src/bip110/context.rs: the limits of the rules, and the consensus activation window.
use mempool_atlas.Prelude.{
  ℕ, ◌+◌, ◌*◌, ◌-◌, ◌^◌, min, Bool, false, ◌&&◌, Option, ltb, leb, map_option,
}

abbrev pub max_output_script_size : ℕ
max_output_script_size = 34

abbrev pub max_output_data_size : ℕ
max_output_data_size = 83

abbrev pub max_script_element_size_reduced : ℕ
max_script_element_size_reduced = 256

abbrev pub taproot_control_base_size : ℕ
taproot_control_base_size = 33

abbrev pub taproot_control_node_size : ℕ
taproot_control_node_size = 32

abbrev pub taproot_control_max_node_count_reduced : ℕ
taproot_control_max_node_count_reduced = 7

abbrev pub taproot_control_max_size_reduced : ℕ
taproot_control_max_size_reduced =
    taproot_control_base_size + taproot_control_node_size * taproot_control_max_node_count_reduced

abbrev pub annex_tag : ℕ
annex_tag = 0x50

abbrev pub taproot_leaf_mask : ℕ
taproot_leaf_mask = 0xfe

abbrev pub taproot_leaf_tapscript : ℕ
taproot_leaf_tapscript = 0xc0

abbrev pub op_return : ℕ
op_return = 0x6a

abbrev pub active_duration : ℕ
active_duration = 52_416

-- `u32::saturating_add`
abbrev pub saturating_add_u32 : ℕ → ℕ → ℕ
saturating_add_u32 a b = min (a + b) (2 ^ 32 - 1)

pub record EvaluationContext : Type 0 where
  pub activation_height : Option ℕ
  pub spend_height : ℕ

unfoldable pub rdts_active : EvaluationContext → Bool
rdts_active ctx = elim ctx.activation_height [
  | Option.none ↦ false
  | Option.some h ↦
      leb h ctx.spend_height && ltb ctx.spend_height (saturating_add_u32 h active_duration)
]

unfoldable pub is_grandfathered : EvaluationContext → ℕ → Option Bool
is_grandfathered ctx creation_height = map_option (λ h. ltb creation_height h) ctx.activation_height
