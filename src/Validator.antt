-- ===== src/Validator.antt =====
-- pkg/admissionctrl/validator: the validators that NACP ships.
pub mod Opa
pub mod OpaBundle
pub mod Webhook
pub mod Notation
