-- ===== src/Lib.antt =====
-- The falling-sand engine: the core that the server, the simulation and the client share
-- (crates/fallingsand_math, crates/fallingsand_core), the simulation of cells
-- (crates/fallingsand_sim), the server's slot actions
-- (crates/fallingsand_server/src/inventory.rs), regions as the server stores and loads them, and the
-- bytes that go over the wire.
--
-- Math        crates/fallingsand_math/src/lib.rs. A `Hash` is its `u64`; `label_from` is the loop of
--             `Hash::label`, `at_pos` is `Hash::pos`. `round_div` takes a positive divisor.
-- Coords      crates/fallingsand_core/src/coords.rs. An `i32` is its 32-bit pattern; `Cells`, `Chunks`
--             and `Regions` hold the methods of `CellPos`, `ChunkPos` and `RegionPos`, `Offsets` those
--             of `CellOffset` and `ChunkOffset`. `Ray` is the closure of `ray_cells` as a state, with
--             `next` as one call; its `i64` variables are unbounded integers.
-- Items       crates/fallingsand_core/src/item.rs. `Inventories.Slots` has insertion, `Remove` removal,
--             `Click` the clicks. The early returns of a loop are the parameter that reaches 0. The
--             table of items is generated by the build, so `stack_limit` is a parameter.
-- Actions     crates/fallingsand_server/src/inventory.rs: `apply_action`, which calls the inventory, and
--             the loop over the queued actions of one player. The recipes and the number of items are
--             parameters. The craft loop takes fuel: a round uses up items that the player owns, so
--             their number bounds the rounds.
-- Cell        crates/fallingsand_core/src/cell.rs: the four bytes that are a velocity or a body number.
-- Chunk       crates/fallingsand_core/src/chunk.rs, and `FogMask` of crates/fallingsand_core/src/fog.rs.
--             `Rect` is `DirtyRect`; `State` is `Chunk`, which marks its rectangles on every write and
--             puts them away when a tick rolls; `Clear` is about the loops of `begin_tick`.
-- Material    crates/fallingsand_material/src/lib.rs: phases, tags, fixed-point fractions, and the data
--             of dynamics, burning and reactions.
-- Sim         crates/fallingsand_sim/src. A tick (`Kernel.Step.step_scoped`) starts every chunk's tick
--             and runs three passes; a pass (`run_sim`) runs four phases, a phase (`Kernel.Phase`) hands
--             the chunks to windows of four by four and back, and `Kernel.Block` calls a rule on the
--             cells of a window. `Rules` chooses the rule: `Chemistry`, then the effects of `Powder`,
--             `Liquid` or `Gas`; in the movement pass, `Motion.Move`, `Liquid` or `Gas`.
--             `Motion.Traverse` is the loop of `traverse` with its closures as parameters. `Window` is
--             `SimWindow`, `World` is `CellWorld`. The tables of materials are generated by the build:
--             `Content` gathers what the simulation reads of them, and every rule takes it. An id
--             without a specification, and a powder without a positive density, panic: `Known`
--             follows the materials through the pass of the effects.
--             The loop of `traverse` takes fuel: a step uses up one of those that remain, and at most
--             two stops come between two steps, so three times the steps and three more are enough.
--             A window holds its chunks by value, and `hand_back` stores what the code writes through
--             references; the windows of a phase run one after another. Maps are association lists.
-- Net         crates/fallingsand_net/src/framing.rs: `Frames` is `encode_frame` and `FrameBuffer`,
--             `Closing` is `Closed`, whose calls run one at a time.
-- Wire        crates/fallingsand_protocol/src/wire.rs: `Message` is `encode_message` and
--             `decode_message`, `Cells` the cells of a chunk, with the packing loops in `Pack`. The
--             serializer (postcard), the compressor (lz4_flex) and the number of materials are
--             parameters; `bit_length` takes 64 rounds for the bits of a `usize`.
-- Store       `Region` is crates/fallingsand_core/src/region.rs, `Codec` is
--             crates/fallingsand_server/src/persistence/region_codec.rs with the same libraries as
--             parameters, `Moves` is the part of crates/fallingsand_server/src/regions.rs that puts a
--             region into a `CellWorld` and takes it out.
-- Body        `Rotation` is crates/fallingsand_sim/src/body/rotation.rs: `turned` is the loop over the
--             quarter turns, `sheared` the three shears. 64-bit values are integers, cut where the code casts.
--             `Island` is crates/fallingsand_sim/src/body/island.rs: `walk` is the loop over the queue,
--             whose 2049 rounds are enough, since a round takes one of at most 2048 visited cells.
-- Sight       crates/fallingsand_server/src/fog.rs: `View`, `cast` and `scan`. `sweep` is the loop over
--             the columns, with the scan at the next depth as a parameter. A scan takes fuel: the depth
--             is at most 41 when it starts, and grows by 1, so 41 is enough from depth 1.
-- Units       crates/fallingsand_core/src/calendar.rs and crates/fallingsand_core/src/subcell.rs.
-- Prelude     words, bits, lists, signed integers and tests that the others share.
--
-- A panic (an index or a slice out of range) is `none`. Counters that only a debug build checks for
-- overflow are natural numbers.
--
-- Not modelled: floating point (`chance_threshold`, `unit`, the fractions of the calendar, the
-- conversions of `Subcell` and `Q16`, the sky), rigid bodies but for their rotations and islands, the
-- server's sessions, players and replication, the persistence thread and its database, world
-- generation, the content compiler, the client and the connections over the network.
pub mod Body
pub mod Prelude
pub mod Math
pub mod Coords
pub mod Items
pub mod Actions
pub mod Cell
pub mod Chunk
pub mod Net
pub mod Material
pub mod Sim
pub mod Store
pub mod Units
pub mod Sight
pub mod Wire
