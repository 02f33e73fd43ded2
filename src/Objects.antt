-- ===== src/Objects.antt =====
-- The structs, the interfaces and the constructors of the program, and the object graph that
-- `setupDependencies` of internal/app/app.go builds of them. An interface is a record of its methods,
-- and a method of a struct is a function of it.
pub mod Queries
pub mod Sqlc
pub mod UnitOfWork
pub mod Email
pub mod Service
pub mod Agreement
pub mod Web
pub mod Dependencies
