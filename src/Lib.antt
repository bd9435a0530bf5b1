-- ===== src/Lib.antt =====
-- hsm-service: a multi-tenant signing and encryption service in front of a hardware security module.
--
-- The application services (internal/application/services) look up a key, a tenant and a slot, call
-- the HSM, write the key repository, and record what they did. They reach the outside only through
-- the output ports (internal/domain/ports/output). The modules:
--
--   Prelude       names that all files share: Boolean tests, lists measured by native numbers, Go's
--                 `int` (Int) and the decimal printing of numbers (Decimal).
--   Domain        Errors: internal/domain/exceptions/domain_errors.go. Values and Entities:
--                 internal/domain/valueobjects and internal/domain/entities.
--   Exec          how a call runs: it returns, fails or panics, and changes the world, which has a
--                 trace of the calls that leave the services. `deferring` is Go's `defer`, run on a
--                 panic too; `rescue` and `ignoring` are the rollbacks. Exec/Keeps: invariants.
--   Ports         the output ports as one record over an arbitrary type of what lies behind them;
--                 AesKeys: the key managers' port.
--   Services      Helpers: helpers.go; TenantSlots: which slot its lookup gives. Keys:
--                 key_service.go (CreateKey is `create_key`, and so on). Signing:
--                 signing_service.go. Crypto: crypto_service.go. HsmKeys: hsm_key_service.go.
--                 Slots: slot_service.go. Their child modules hold the theorems.
--   Aes           pkg/crypto/aesgcm.go, pkg/crypto/keywrap.go and the value object
--                 internal/domain/valueobjects/encrypt_aes_gcm.go, over Go's AES-GCM as a parameter.
--   Hsm           Pool: internal/infrastructure/hsm/session_pool.go, with a step relation for several
--                 goroutines (Pool/Steps). Context: internal/infrastructure/hsm/pkcs11_context.go.
--                 Manager: internal/infrastructure/hsm/manager.go. Bootstrap: how
--                 internal/infrastructure/hsm/bootstrapper.go recovers a PIN. SoftHsm: client.go and
--                 the files client_*.go there, over a PKCS#11 session as a parameter.
--   Secrets       internal/infrastructure/secrets/local_manager.go over Aes. K8s: k8s_manager.go beside
--                 it, its cache as state. Adapter: aes_key_manager_adapter.go.
--   Http          HandleError of internal/interfaces/http/handlers/base_handler.go.
--   Audit         internal/infrastructure/audit: factory.go and hybrid_processor.go; Events: the event
--                 that worker.go makes; Dispatch: the queue and the workers of worker.go as a step
--                 relation, in which a recording succeeds or fails. The buffer of 1000 events and
--                 the three workers are the code's.
--   Storage       internal/infrastructure/storage/mysql/key_storage.go, MySQL as a parameter.
--   Memory        the ports made concrete, and the theorems on the services at concrete calls.
--
-- Go's string types are texts, a byte is a number, a `uint` is a number below 2^64 and `int(n)` reads
-- its bits (`int_of_uint`). A pointer that may be nil is an option, and its dereference may panic.
-- Printing a number uses fuel 20, enough for the 20 digits of 2^64. Everything else ends by recursion
-- on lists.
--
-- Not modelled: durations and time stamps that are only recorded, request contexts, JSON, HTTP
-- routes, the SQL of the other tables, JWT, configuration, logging, process start, and the scripts.
-- The HSM, the repositories, the clock, the random source, SHA-256 and AES-GCM are parameters;
-- where a theorem needs one of their properties, it is a named hypothesis (`AeadLaws`,
-- `DatabaseLaws`, `SemaphoreLaws`, `InsertsOnly`, and the premises of a theorem), and a concrete
-- instance has it.
pub mod Prelude
pub mod Domain
pub mod Exec
pub mod Ports
pub mod Services
pub mod Hsm
pub mod Secrets
pub mod Audit
pub mod Storage
pub mod Http
pub mod Aes
pub mod Memory
