-- ===== src/Pricing.antt =====
-- The deterministic price path: app/tools/price_compare.py, shipping_calc.py and import_tax.py.
pub mod Offer
pub mod Tax
pub mod Compare
pub mod Shipping
