-- ===== src/Lib.antt =====
-- Verification library of the sleep environment monitor's firmware (firmware/src): models of its
-- storage, its upload to the server, its BLE transfer and pairing, its flash and its status logic,
-- with the theorems that make them correct. Paths of the source are under firmware/src.
--
-- How the parts interact. The storage task keeps a backlog of measurements
-- (tasks/storage/backlog.rs). The backlog stands on a spool (storage/spool/flash.rs), which keeps
-- the pending records in a queue in memory (storage/spool/memory.rs over util/queue.rs) and a log
-- of records and acknowledgements in a flash region (storage/flash_model.rs, drivers/flash.rs).
-- After a reboot the log is read back. The region of the log is a part of the chip, behind the
-- calls of the ROM (drivers/flash.rs). The storage task (tasks/storage/runtime.rs) serves the
-- aggregator, which appends, and two clients, which read the oldest record and acknowledge it: the
-- uploader (tasks/upload), which posts it to the server first, and the BLE task. The BLE task
-- hands the oldest record to a client in fragments (tasks/ble/transfer.rs, protocol.rs) and
-- acknowledges it to the storage; who may pair is decided by a gesture (tasks/ble/pairing.rs), and
-- the keys are in a flash region of their own (storage/ble_auth).
--
-- Files:
--   Prelude        lists, tests, bytes, results and machine integers that the parts share
--   Queue          util/queue.rs, `DropOldestQueue`; Queue/Fifo is what it promises
--   Flash          storage/flash_model.rs: `FlashStorage` and the laws of NOR flash; Flash/Model is
--                  `InMemoryFlash`
--   Spool          storage/spool: Crc, Codec (codec.rs), Memory (memory.rs), Backed and
--                  Backed/Recover (flash.rs); Spool/Log is the log that the flash holds, its replay,
--                  and the theorems on append, acknowledge and recovery
--   Storage        tasks/storage: Backlog (backlog.rs, `StorageBacklog`), Protocol, and Task
--                  (runtime.rs), where a command is a step of the task's state
--   Upload         tasks/upload: Decimal, Writer and Json (json.rs), Parse, Time, Http, and Runtime
--                  (runtime.rs) with Runtime/Task, where a turn of the loop is a step
--   Aggregator     tasks/aggregator.rs and util/logging.rs
--   Config         config.rs, the check of the WiFi credentials
--   Types          types.rs, the flags, states, samples and snapshots that the tasks share
--   Ble            tasks/ble: Protocol, Transfer, Pairing, Status, Keys (auth.rs) and Gatt (gatt.rs
--                  and storage_bridge.rs), where an event of a client is a step, and PairingTask
--                  (the pairing task of runtime.rs), where a turn of the loop is one
--   Auth           storage/ble_auth: Record (types.rs, header.rs, record.rs), Upsert, Store (flash.rs)
--   Region         drivers/flash.rs and board.rs, the layout of the flash and the check of an access;
--                  Region/Rom is the region behind the calls of the ROM, and its smoke test
--   Sensors        drivers/sht40.rs, the frames of the temperature and humidity sensor
--   Wifi, Led      the pure part of tasks/wifi.rs, util/status.rs, and tasks/led.rs
--
-- Functions keep the names of the source. A method that takes `&mut self` or a flash gives its
-- result with the state after the call, also on an error. A constant parameter (`CAPACITY`,
-- `PAYLOAD_SIZE`, `SECTOR_SIZE`) is an argument; an array is a list of its length; a byte is a
-- number below 256 where a theorem says so; `usize` has 32 bits, as on the target.
--
-- The flash is a parameter: any implementation that obeys `Flash.IsNor` on word-aligned accesses.
-- The in-memory region of the source fills the laws, and so does a region behind the ROM. The
-- ROM's flash calls are code outside the repository: a parameter, with what is documented of them
-- as `Region.Rom.Loops.IsRom`. The JSON text of a measurement is an argument of the backlog; the
-- text of a float is one of the JSON text, and what a raw value of a sensor stands for is one of
-- its frames. What the network stack does in a turn of the uploader, and which signals a turn of a
-- task finds, are arguments of the turn.
--
-- Fuel: the scan of the flash moves its cursor in every round and gets a round for each byte and
-- one more; the compaction loop takes a record off in every round and gets one for each record and
-- one more. The loop of the backlog that discards records takes one off in every round and has a
-- round for each record and one more too. The loops over the ROM's calls get a round for each
-- byte, of which each moves four at least. An integer of 64 bits has 20 decimal digits at most.
--
-- Theorems on the spool's log take `PAYLOAD_SIZE` up to 490, the largest that the entry buffer of
-- 512 bytes takes, and sequences that do not wrap. A log counts as readable when 24 bytes of the
-- region begin at each of its entries, as the scan reads that many.
--
-- Of the BLE stack the security level of a connection, the match of its peer with a key, and
-- whether the server takes a value are arguments.
--
-- Not modelled: waiting and scheduling of the tasks, the radio, BLE and network stacks, the BLE
-- task that drives the stack (in tasks/ble/runtime.rs), the other sensors (floating point and
-- I/O), the server and the tools beside the firmware.
pub mod Prelude
pub mod Queue
pub mod Flash
pub mod Spool
pub mod Types
pub mod Storage
pub mod Ble
pub mod Auth
pub mod Region
pub mod Wifi
pub mod Led
pub mod Upload
pub mod Config
pub mod Aggregator
pub mod Sensors
