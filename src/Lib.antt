-- ===== src/Lib.antt =====
-- The parts of a backend library in Go that decide about requests and keep its data consistent, as
-- functions, with the theorems on them. Paths are from the root of the repository.
--
-- A request comes to the REST server (pkg/api/api_server/rest_api_gin_server/server.go), which
-- looks up its tenancy, checks the CSRF token, authenticates it by a schema and calls the
-- endpoint: Auth/Gate.
-- A schema (pkg/auth/auth_schema.go, with auth_manager.go, endpoint_config.go and auth.go) joins
-- handlers by "and" or by "or": Auth/Schema. The handlers of pkg/auth/auth_methods are in
-- Auth/Csrf (auth_csrf), Auth/Login (auth_login_phash), Auth/Token (auth_token, over the sessions
-- of pkg/auth/auth_session), Auth/Sms (auth_sms), Auth/Hmac (auth_hmac) and Auth/Signature
-- (auth_signature, with Verify of pkg/signature/signature_manager.go). They share a context:
-- Auth/Context is auth.AuthContext as one record, which a handler takes and gives back, Auth/Flow
-- the chain of steps with early returns that a handler's body is, and Auth/Encryption the
-- interface to encrypted parameters, which Auth/Encryption/Parameters implements as
-- AuthParameterEncryptionBase of parameter_encryption.go does, over a cipher and a coding that are
-- parameters. Auth/Token/NewToken is auth_new_token.go, and Auth/Token/Login puts its tokens
-- before the handler of Auth/Token. A handler's result is the pair that the Go code returns,
-- whether its section was found and the error, and the new context, whose generic error is kept as
-- its code.
-- AccessControl/Mask is pkg/access_control/access.go and AccessControl/Check is CheckAccess of
-- access_control.go: the loops over paths, levels, tags and roles are recursions over the list of
-- paths with their tags, the most specific first.
-- Pool is pkg/pool: Pool/Store has the tables and the monad of the operations, Pool/Controller and
-- Pool/Bindings the operations of pool_controller.go under their names, Pool/Calls what each does
-- to the tables, Pool/Consistency and Pool/Changes the invariant, Pool/Laws and Pool/Errors the
-- theorems.
-- Pool/Stores is pool_store.go, the pools that a process loads, Pool/Loading what Init leaves, and
-- Pool/Bound what a binding gives then.
-- Tenancy is pkg/multitenancy/tenancy_manager: Tenancy/Store has the rows, Tenancy/Controller the
-- operations of tenancy_controller.go and the checks of tenancy_manager.go, Tenancy/Steps what
-- they do to the table, Tenancy/Laws the theorems. Tenancy/Loading has the tenancies that
-- TenancyManager has loaded by identifier and by path, with their connections (tenancy_base.go);
-- Tenancy/Entries and Tenancy/Agreement are about the two maps, Tenancy/Loaded about
-- notifications, Tenancy/Startup about the start.
-- Users is pkg/user/users.go, with the fields of user.go: Users/Steps has what each operation does
-- to the tables, Users/Laws and Users/Fields the theorems, and Users/Logins puts the users that
-- Add and SetPassword store before the login handler of Auth/Login. Users/Pubkeys is
-- pkg/signature/user_pubkey, whose AddPubKey runs in a transaction.
-- Filters is pkg/db/filter.go with filter_parser.go and gorm_orm.go of pkg/db/db_gorm:
-- Filters/Requests has the filters of a listing and the queries that stand for them,
-- Filters/Parser the parser of a query, Filters/Checked and Filters/Parsed what it can give,
-- Filters/RoundTrip what it makes of a printed filter.
-- Filters/Sql has the calls of gorm that a filter becomes, with the text and the arguments of
-- each, Filters/Texts and Filters/Statements which texts are in them. A typed value is kept as its
-- printed text; the conversions and the validator are parameters.
-- Confirmation is pkg/confirmation_control: the handlers of the services that prepare, check and
-- confirm an operation, with the authentication by the phone of its token; Confirmation/Laws puts
-- them one after another. A read through a nil pointer is an error of its own.
-- Pubsub is pkg/pubsub/pubsub_subscriber: topics with their clients, shared by reference, and the
-- subscriber that has them by name; Pubsub/Laws has who gets a message. Pubsub/Pools is
-- PoolPubsubBase of pkg/pubsub/pool_pubsub, the publishers and subscribers of the pools of a
-- store, Pubsub/Pools/Calls its operations, Pubsub/Pools/Laws which pools are connected, and
-- Pubsub/Pools/Restart what a process has that starts after a pool was deactivated. Their factory
-- is a parameter.
-- OpContext is pkg/op_context/default_op_context: the context of an operation with its stack of
-- calls, the log and the log records. Call contexts are shared by two stacks, so they are in a
-- store and a stack holds references. OpContext/Trees runs a tree of calls against the context,
-- OpContext/Runs has what that leaves, OpContext/Laws what Close writes.
-- Sms is pkg/sms/sms_manager.go: Sms/Destinations has the choice of a provider by the longest
-- prefix, Sms/Laws the theorems on Init and Send. Auth/Sms/Tries and Auth/Sms/Bound bound the
-- tries of a code.
-- Api is pkg/api: Api/Resources is the tree of resources of resource.go that keep paths built from
-- the parent's, Api/Resources/Chains the paths that a chain stands for, Api/Resources/Laws the
-- theorems, Api/Resources/Resets ResetIds, Api/Resources/Visits EachOperation, and Api/Operations
-- the removal of operations in a slice in place.
-- Effects is the chain of steps with errors that the controllers are; Results is the chain without
-- a state.
-- Table is a table as the list of its rows, with the calls of pkg/crud/crud.go.
-- GenericError is the error manager of pkg/generic_error and its extender.
-- Utils is pkg/utils: Utils/Dates is date.go and month.go, Utils/Mask is phone.go and card.go.
-- Prelude has the tests, lists and dictionaries that all share. The modules named Tests, KeyTests,
-- CodeTests, Codes and Examples run the definitions at concrete inputs.
--
-- Every function is total by structural recursion; the loops over a slice that they change run
-- once for each of its elements. A call of the database, of the cache or of the SMS provider fails
-- by a schedule in the state, one entry for each call, so a theorem holds whichever calls fail.
-- Time is in seconds and stands still while one request is handled.
-- The encryption of parameters, where a handler uses it, SMS providers, the sums of HMAC, random
-- identifiers and codes, the users of the user manager, the rules of an Acl and the tags of a
-- ResourceManager are parameters. Numbers have no bound but for access masks, whose complement is
-- taken in 32 bits; dates are those that fit into Go's int.
--
-- Not modelled: reading the configuration, concurrent requests, the constraints of the database,
-- transactions but for those of keys, and what the code takes from libraries (gin, gorm, the
-- cache, cryptography). Of the settings of a pool's service only the common fields are there;
-- tenancies are named by identifier, and ChangePoolOrDb, Init and Close of the manager are left
-- out. So are the joins of a listing in general, the providers of publishers and subscribers, and
-- the clients of the services of confirmations.
pub mod Prelude
pub mod Effects
pub mod Results
pub mod Table
pub mod AccessControl
pub mod Api
pub mod Auth
pub mod Confirmation
pub mod Filters
pub mod GenericError
pub mod OpContext
pub mod Pool
pub mod Pubsub
pub mod Sms
pub mod Tenancy
pub mod Users
pub mod Utils
