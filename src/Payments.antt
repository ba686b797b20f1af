-- ===== src/Payments.antt =====
-- Payments with Telegram Stars: src/payments.py and the handlers of src/user_handlers.py that make
-- an invoice and take its payment.
pub mod Payload
pub mod RoundTrip
pub mod Checkout
pub mod Purchases
pub mod Term
mod Tests
