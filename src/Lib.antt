-- ===== src/Lib.antt =====
-- Mine & Die, the authoritative game server (server/): the path of a player's command into the
-- simulation, what the simulation stages for the next broadcast, and parts of the world it steps.
--
-- A client's command is staged in the loop (server/internal/sim/loop.go), which throttles each actor
-- and keeps the commands in a ring buffer (command_buffer.go) until the next tick. A tick drains the
-- buffer, hands the commands to the engine core and steps it. While it steps, the world records
-- patches, effect events and keyframes in the journal (server/internal/journal/journal.go), which
-- the broadcast drains; where encoding fails, the hub puts the drained batch back. A journal that
-- loses events asks for a resynchronisation through its policy (policy.go). The world keeps, among
-- others, an inventory and an equipment for each actor (server/internal/world/state). A view of the
-- players is rebuilt by replaying patches (server/internal/sim/patches/apply.go).
--
-- Prelude     the libraries' names, lists over native numbers, maps as association lists, 64-bit
--             integers (Prelude/Int) and words, the case lemmas of the conditionals, the order of
--             texts (Prelude/Texts), sorting (Prelude/Sort), float64 as a record of operations
--             (Prelude/Float)
-- Sim/Command   server/internal/sim/command.go
-- Sim/Buffer    CommandBuffer of command_buffer.go; Buffer/Queue is its contract, a bounded queue,
--               Buffer/Valid its invariant, Buffer/Refine the refinement
-- Sim/Loop      NewLoop, Enqueue, drainCommands, Advance and their helpers of loop.go;
--               Loop/Throttle and Loop/Drops for one call of Enqueue, Loop/Limit for the limit over all runs,
--               Loop/Order for the commands of a step
-- Sim/Patches   ApplyPlayers of server/internal/sim/patches/apply.go; Patches/Replay for what a
--               replay does
-- Journal/Contract  the event records of server/effects/contract/types.go
-- Journal/Policy    the resync policy
-- Journal/State     the record of the journal and its constructor
-- Journal/Patches   AppendPatch, PurgeEntity, DrainPatches, SnapshotPatches, RestorePatches
-- Journal/Effects   RecordEffectSpawn, RecordEffectUpdate, RecordEffectEnd; Effects/Cursor for the
--                   outcomes of an update, Effects/Ended for updates after an end, Effects/Live for
--                   updates after a spawn
-- Journal/Batches   DrainEffectEvents, SnapshotEffectEvents, RestoreEffectEvents, ConsumeResyncHint;
--                   Batches/Rollback for putting a batch back, Batches/Respawn for a batch in which
--                   an effect ends and spawns again
-- Journal/Keyframes RecordKeyframe, Keyframes, KeyframeBySequence, KeyframeWindow; Keyframes/Stale
--                   and Keyframes/Laws for one recording, Keyframes/Age for the limit on age
-- World/Items       the item data of server/internal/world/state/items.go
-- World/Inventory   AddStack, MoveSlot, RemoveQuantity of state/inventory.go; Inventory/Bulk for
--                   QuantityOf, RemoveAllOf, DrainAll, RemoveItemTypeQuantity; Inventory/Slots and
--                   Bulk/Runs for the slot indices, Inventory/Totals, Bulk/Exact and Bulk/Count for
--                   quantities
-- World/Equipment   Get, Set, Remove, DrainAll, sortSlots, EquipmentsEqual of state/equipment.go;
--                   Equipment/Map is the contract, Equipment/Refine the refinement
-- Stats         the layered stats of server/stats: Stats/Types and Stats for stats.go and
--               serialization.go, Stats/Formulas for formulas.go, Stats/Registry for registry.go;
--               Stats/Coherent for the caches against the sources (Coherent/Layers for one layer,
--               Coherent/Resolve for `Resolve`, Coherent/Order for the order of iteration),
--               Stats/Bounds for the ranges of the derived values
-- Effects       server/internal/effects/runtime: Effects/Grid for spatial_index.go (Grid/Buckets and
--               Grid/Distinct for the loops, Grid/Capacity for the limit of a cell), Effects/Registry
--               for registry.go (Registry/Prune for PruneExpired, Registry/Aligned for the registry
--               and the index together); Effects/Instances and Effects/Manager for
--               server/internal/world/effects/manager.go (Manager/Emission for the events,
--               Manager/Log and Manager/Tracks for those of one instance, Manager/Valid for the invariant, Manager/Spawning,
--               Manager/Announcing and Manager/Ticking for the loops of a tick, Manager/Runs for
--               sequences of calls)
-- Ground        server/internal/items/ground_items.go: Ground/Store for the items, the index and the
--               setters, Ground for UpsertGroundItem, Ground/Index for the index against the items
--               (Index/Run over sequences of calls), Ground/Pickup for NearestGroundItem and
--               PickupNearestItem (Pickup/Listed, Pickup/Nearest and Pickup/Handled for the result), Ground/Drops for what an actor drops and for the snapshot
-- Status        ApplyStatusEffect and AdvanceStatusEffects of
--               server/internal/world/status/status_effects.go; Status/Ticks for the loop
-- Nav           server/internal/world/navigation.go and geometry.go: Nav for the grid, Nav/Heap for
--               container/heap, Nav/Search for astar and closestWalkable (Search/Moves for a step,
--               Search/Walks for walks, Search/Cells for indices, Search/Relax, Search/Correct and
--               Search/Closest for the loops), Nav/Route for findPath, the blockers and
--               ComputePathFrom (Route/Laws and Route/Nearby for their results)
-- Feed          recordEffectLifecycleEvent of server/simulation.go, from the effect manager to the
--               journal: Feed/Accepted for one event, Feed/Delivered for where the events go,
--               Feed/Recorded for all of a manager's, on top
--               of Journal/Effects/Accept and Journal/Batches/Untouched
--
-- Conventions. A method that changes its receiver is a function from the state to the new state and
-- the result. A call that holds a mutex throughout is one step, so an interleaving of callers is a
-- sequence of calls. A nil receiver is outside the models. A map is an association list that is read
-- by `lookup`; Go's order of iteration does not matter where it is iterated, or is a parameter. `int`
-- and `int64` are integers with the wrap of 64 bits written out where a sum can reach it, `uint64` a
-- number modulo 2 ^ 64; lengths and counts of slices are plain numbers. A time is the nanoseconds since Go's zero
-- time. A float64 is a value of a type parameter; where the code computes with floats the
-- operations are those of a record `Float64`, with no laws. Payloads and the parts of a keyframe are
-- type parameters. Deep copies are the value itself. Calls of metrics, telemetry, loggers and of the
-- loop's hooks are appended to a list in the state; a hook of the effect manager is a function. All
-- recursion is on lists and numbers, but for the loop over the ticks of a status effect: it has
-- `now + 1` as fuel, which is enough as each round moves the next tick on by at least one, and for
-- the searches on a grid: `astar` has nine rounds a cell and two more, since each cell is expanded
-- once and adds at most eight nodes, and `closestWalkable` one a cell and two more. The loops of
-- container/heap have the length of the heap as fuel, as each round halves or doubles the index.
--
-- Not modelled: `Run` of the loop, which is a ticker around `Advance`; the methods that only pass a
-- call on to the engine core, which is a parameter; texts made for logs; the projectiles and the
-- hooks of the effects, which the manager takes as parameters; the lifetimes of status visuals and
-- the burning hooks; the counter of spawns in the feed; and the world, the hub, the network and the
-- client around these parts. A hook of an effect that enqueues an
-- intent on the manager during a tick, as the hook of the melee swing does, is outside the model of
-- the manager. An item is removed from the ground by its id, since the callers pass stored items.
pub mod Prelude
pub mod Sim
pub mod Journal
pub mod World
pub mod Stats
pub mod Effects
pub mod Ground
pub mod Status
pub mod Nav
pub mod Feed
