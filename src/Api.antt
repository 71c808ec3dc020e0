-- ===== src/Api.antt =====
-- The API that the controllers work on: the custom resources (api/v1alpha1), the objects that
-- they create, and the API server's client as an interface with its laws.
pub mod Driver
pub mod Objects
pub mod Client
pub mod Laws
pub mod Responsive
pub mod Memory
