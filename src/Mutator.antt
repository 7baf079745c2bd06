-- ===== src/Mutator.antt =====
-- pkg/admissionctrl/mutator: the mutators that NACP ships.
pub mod OpaJsonPatch
pub mod JsonPatchWebhook
pub mod Webhook
pub mod OpaBundle
