-- ===== src/Lib.antt =====
-- The BlockData Python package, python/endstone_blockdata: snapshots of the blocks of a Minecraft
-- (Bedrock) server, patches that are applied by compare-and-swap, and the views with which
-- plugins read and edit containers, shelves and bundles.
--
-- How the parts interact. An adapter captures a `BlockSnapshot` of a location, with a `revision`
-- that is a digest of its contents. A view (`ContainerView`, `ShelfView`, `StorageItemView`)
-- reads a snapshot and builds a `BlockPatch`, which expects that revision. The adapter's `apply`
-- refuses the patch where the revision has changed, and returns an `ApplyResult`.
-- `BlockDataService.diff` reports what changed between two captures of one location. On a server
-- the adapter is `LiveBlockDataAdapter`, over a native module, the bridge; the inspector plugin,
-- examples/python/block_data_inspector_plugin, calls the same bridge from its commands and forms.
--
-- The files, by the part of the code that they are about:
--   Base          Helpers: tests on numbers, Python's exceptions as values (`Result`, by
--                 exception class and message), `==` and `in`, lists, integers, dicts in
--                 insertion order, and the stable sort of `sorted` and `list.sort`.
--   Nbt           The values of item compounds and JSON mappings, and Python's `==` on them.
--                 A float or a byte array is a value known by its text alone.
--   Model         python/endstone_blockdata/model.py: the records, and `refresh_revision`.
--   Memory        `InMemoryAdapter` of service.py: `capture` and `apply`. Laws has what a single
--                 call does, Invariant and Sound what holds after any sequence of calls.
--   Region        `BlockDataService.capture_region` of service.py.
--   Diff          `BlockDataService.diff` of service.py, slot by slot.
--   Audit         The use of them together: capture, patch, capture, diff.
--   Container     `ContainerView` of service.py.
--   Shelf         `ShelfView` of service.py: its constructor, its slots, its checks and the
--                 patches that it builds; Patched and Applied have the patches sent to the
--                 adapter, Listed and Replace the patch of all slots at once.
--   StorageItem   python/endstone_blockdata/storage_item.py: the rules (Rules), what is read from
--                 an item (Reading), unit weights (Weight), `validate_storage_item` (Validate)
--                 against its specification (Spec), and `StorageItemView`
--                 (View, Edits, Replace, Parent).
--   Player        python/endstone_blockdata/player_inventory.py: the snapshot, the patch and the
--                 view of a player's inventory; Mapping has its mappings and its adapter.
--   Live          python/endstone_blockdata/live.py: the mappings of snapshots and patches, the
--                 search for the bridge's module (Loader) and the adapter (Bridge); Served has
--                 the adapter over a bridge that serves the in-memory adapter.
--   Shop          examples/python/shelf_shop.py: stock that is reserved, and then completed or
--                 restored, on the in-memory adapter; Tokens and Separate are about any sequence
--                 of calls, with writes of others in between.
--   Inspector     examples/python/block_data_inspector_plugin/src/endstone_blockdata_inspector/
--                 plugin.py: what it reads from snapshots (Reading, Summary, Shelves), its session
--                 (Session, Command, Bridge, Targets), the handlers of its commands (Items,
--                 States, Difference, Audits, Found, Locate, Inspect), its pages and what
--                 their responses come to (Pages, Checks, Responses), the lock on forms (Forms),
--                 and its commands and callbacks (Dispatch, Events). Triples is on commands in
--                 sequence; Reads, Writes, Calls and Answers go through the commands and the
--                 callbacks with it, for Guard, Tokens and Confirmation.
--
-- The correspondence. State is passed explicitly: an operation on an adapter takes the blocks and
-- returns them changed, since each call of the code holds its lock from start to end. The views
-- are copies, as the code's `deepcopy` makes them, so an edit returns a new view. A function that
-- may raise returns a `Result`; where the code checks the type of an argument, the argument is a
-- Python value (`Value`), and elsewhere it has the annotated type. A Boolean is never an `ℤ`.
-- Python's integers do not overflow: they are ℤ, or ℕ where the code has checked the sign.
--
-- A command of the inspector is a function on a session (the world, the plugin's attributes, the
-- messages and the forms that were sent) that goes on, returns early or raises; every handler
-- returns True wherever it returns. A form's callbacks are its page, by name, in place of
-- closures: one constructor of `Page` per `_show_…` method. A token of `uuid4` is the number of
-- tokens that were drawn before it. `id(item)` is not modelled: a value is a tree, so that an item
-- is never within itself.
--
-- Parameters. The compact JSON text of a snapshot and its BLAKE2b hash are one function, `digest`,
-- on the mapping with sorted keys; no theorem needs it to be free of collisions, except as a
-- hypothesis on the two revisions at hand. The weight resolver of storage_item.py is a function of
-- the caller, which may raise. The native bridge is a record of functions on the world that the
-- server holds, and what an import gives is a function of the module's name. Python's conversions
-- of texts and floats, `casefold`, `lower`, `strip`, `str` of an exception and `json` are
-- functions of which the theorems assume nothing, except that `lower` leaves three words of the
-- commands as they are where a theorem says so. A number of a response is one that a float holds:
-- the OverflowError of `float` on a longer integer is not modelled.
--
-- Bounds. The loops are by recursion on the lists that they run over. The recursion of
-- `validate_storage_item` goes down the levels that are left, 9 at the first call: the depth test
-- of the code is the case of no level, so that there is no other bound. The loop of
-- `capture_region` covers at most 32768 blocks, which the code checks first. The loop of the shop's
-- `reserve` that draws identifiers runs over the list of texts that are drawn, and `reserve` has
-- no result where none of them is new. The walk of the inspector's summary goes down the levels
-- that are left, 4 at the first call, which is the code's bound on the depth.
--
-- Not modelled: the native module and the server; the log messages of the inspector, its
-- registration and the loaders of its modules; the other examples; the build, release and
-- verification scripts, which handle files, archives and processes; and the C++ code.
pub mod Base
pub mod Nbt
pub mod Model
pub mod Memory
pub mod Region
pub mod Diff
pub mod Audit
pub mod Container
pub mod Shelf
pub mod StorageItem
pub mod Shop
pub mod Player
pub mod Live
pub mod Inspector
