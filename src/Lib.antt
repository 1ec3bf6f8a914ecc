-- ===== src/Lib.antt =====
-- A verification library for HDDChecker, which checks and repairs the hard disk of a PlayStation 2:
-- a program on the main processor (system.c) drives modules on the I/O processor (hdst, hdck, fsck,
-- hdsk, hdlog), which it calls through devctl, ioctl2 and mount, and which return an `int` that is an
-- error where it is negative.
--
-- The parts and their files:
--   Prelude.antt     shared names; Prelude/Codes.antt has the `int` results and `u32` arithmetic.
--   Hdst.antt        hdst/main.c, the driver that verifies and erases sectors: hdst_init,
--                    SetIOBufferSize, hdst_EraseSectors, ata_device_read_verify, hdst_devctl.
--   Hdck.antt        hdck/hdck.c, the links of the partition table: CheckAPAPartitionLinks;
--                    Hdck/Maps.antt is ReadPartitionMap and DeleteFreePartitions; Hdck/Repairs.antt is
--                    RecoverPartitionIfSub and RemoveBadPartitions, Hdck/Empty.antt
--                    MarkUnreadablePartionAsEmpty, Hdck/Partitions.antt CheckPartitions, and
--                    Hdck/Rounds.antt HdckDevctl, which runs them all.
--   Fsck/Bitmap.antt fsck/bitmap.c, the cache over the bitmap of zones that fsck builds:
--                    pfsBitmapRead, pfsBitmapFree, pfsBitmapPartInit, pfsGetBitmapEntry.
--   Fsck/Zones.antt  fsckCheckZones of fsck/fsck.c, which marks a range of zones in that bitmap.
--   Fsck/Prompts.antt  the prompts of fsck/fsck.c, fsckPromptUserAction and its second form, and
--                    fsckCheckExtendedAttribute.
--   Fsck/Run.antt    the state of a run of fsck and its actions: the counts, the user's keys, the
--                    requests to stop, the event flag; Fsck/Run/Keeps.antt and Fsck/Run/Leads.antt
--                    have the rules by which an action keeps a property, or leads to one.
--   Fsck/Device.antt the block device, libpfs and the kernel, which fsck.c calls; the structures of
--                    a file system are in Fsck/Layout.antt.
--   Fsck/Super.antt  CheckSuperBlock and fsckCheckBitmap; Fsck/Open.antt is FsckOpen and FsckClose.
--   Fsck/Segments.antt  fsckCheckDirentryInode, with Fsck/Inode.antt (pfsInitDirEnt, fsckFillInode)
--                    and Fsck/FileBitmap.antt (fsckCheckFileBitmap).
--   Fsck/Files.antt  fsckCheckFiles, fsckCheckFile and CheckRootDirectory; Fsck/Entries.antt is the
--                    entries of a directory and fsckFixDEntry.
--   Fsck/Thread.antt FsckThread, with Fsck/Compare.antt (fsckCompareBitmap).
--   Fsck/Control.antt  FsckIoctl2 and fsckGetEstimatedTime.
--   Hdsk/Sim.antt    hdsk/sim.c, the list of partitions in memory that hdsk moves about to find out how
--                    much it would copy; Hdsk/Stat.antt is hdskGetStat and hdskSimGetFreeSectors, and
--                    Hdsk/Copy.antt is CopyPartition and Hdsk/Swap.antt SwapPartition of hdsk/hdsk.c.
--   Hdlog.antt       hdlog/main.c, the tty driver that writes a log: hdlog_mount, hdlog_umount,
--                    hdlog_open, hdlog_write.
--   System.antt      system.c, the jobs that the menu starts: System/ZeroFill.antt is ZeroFillDisk,
--                    System/Surface.antt is SurfScanDisk, System/Clock.antt is the estimates that
--                    they show. System/Jobs.antt is what the jobs on all partitions share,
--                    System/Fsck.antt is ScanDisk, FsckDisk and FsckPartition, and
--                    System/Optimize.antt is OptimizeDisk, FsskDisk and HdskDisk.
--
-- State is passed explicitly. Each part has a record of the code that it calls and that is not part
-- of it (the ATA driver, the device of the bitmap, the cache of libapa, the file calls, the screen),
-- over a type `W` of what that code changes; the laws that a theorem needs of it are named records
-- of hypotheses (`WriteLaws`, `VerifyLaws`, `TransferLaws`, `ApaLaws`, `FileLaws`, `PanelLaws`,
-- `BufferLaws`, `LibraryLaws`, `HandleLaws`, `EntryLaws`, `ChainLaws`, `AtaLaws`).
-- The scan of fsck is a chain of calls `Action W A`, from a state `Env W` to a value and a state, or
-- to none: FsckOpen fills the mount, the super block and the counts, FsckIoctl2 starts FsckThread,
-- and the thread checks the extended attribute, the root directory and the files, compares the
-- bitmaps, and sets the event flag. A request to stop may come in at each look at stopFlag; one that
-- comes in after the last look is not modelled.
-- An `int` result is `ret n` or `err e`. A `u32` is a natural number, with the wrap-around written
-- out (`add32`, `sub32`). `none` is a run that reads through a NULL pointer, out of fuel, or out of
-- keys that answer a prompt.
--
-- Fuel. The loop over the sectors of a range has one round for each sector and one to end, and each
-- round takes a sector at least. fsckCheckZones and fsckCheckFileBitmap have one round for each
-- zone and one to end. fsckFixDEntry has one round for each byte of a block of 512 and one to end,
-- which is enough unless an entry has the length 0, where the code itself does not end.
-- fsckCheckFiles has one round for each byte of the directory and one to end, and goes 64 levels
-- deep, where the code stops at 63. A pass over the partition headers has one round for each sector
-- of the disk and one to end, since it ends at a header that it has seen. The loop over the entries
-- of a main partition has one round for each entry and one to end. The rounds of HdckDevctl, of the
-- jobs that poll a driver and of the walks over the simulated list have no bound in the code, and
-- their fuel is a parameter. The surface scan verifies a patched sector again, and no number of
-- rounds is enough for every drive: its fuel is a parameter, and the theorem about it is one about
-- runs that end.
--
-- Not modelled: the drawing of the screen and the menus (UI.c, menu.c, graphics.c, font.c, pad.c),
-- the loading of modules (iop.c, main.c), and the libraries libapa and libpfs under common/; the
-- optimiser fssk, and of hdsk what searches for the partitions to move and moves them one after
-- another (hdskFindLastUsedPartition, MovePartitionsBlock, HdskThread). The tables of functions by
-- which drivers register are left out, and so are the messages that fsck prints and the names it
-- keeps for them.
pub mod Prelude
pub mod Fsck
pub mod Hdck
pub mod Hdlog
pub mod Hdsk
pub mod Hdst
pub mod System
