-- ===== src/Identifier.antt =====
-- internal/domain/identifier.go: the identifier space, the order of identifiers on the ring,
-- arithmetic modulo 2^Bits, base-k digits and hexadecimal text.
pub mod Space
pub mod Order
pub mod Carry
pub mod Arith
pub mod Digits
pub mod Hex
