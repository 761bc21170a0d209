-- ===== src/Cart.antt =====
-- Orders, prices and stock: apps/cart/services.py over the models of apps/cart/models.py,
-- apps/product/models.py, apps/affiliate/models.py, apps/discount/models.py and
-- apps/market/models.py.
pub mod Rows
pub mod Catalog
pub mod Discounts
pub mod Pricing
pub mod Snapshot
pub mod Inventory
pub mod Sample
