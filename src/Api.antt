-- ===== src/Api.antt =====
-- The HTTP interface: backend/app/core/exceptions.py, schemas/order.py, api/v1/orders.py and
-- api/deps.py.
pub mod Errors
pub mod Schema
pub mod Endpoints
pub mod Refused
pub mod AllOrNothing
pub mod Auth
pub mod Admitted
