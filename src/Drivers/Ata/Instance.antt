-- ===== src/Drivers/Ata/Instance.antt =====
-- kernel/kernel.c: `ata_read` and `ata_write` are what the file system takes as its disk.
use nedoos.Drivers.Ata.{Ports, ata_read, ata_write}
use nedoos.Drivers.Ata.Sector.{Drive, ata_read-sector, ata_read-keeps, read-status}
use nedoos.Drivers.Ata.Store.{Stores, ata_write-sector}
use nedoos.Drivers.Disk.{Disk}

-- The interface of the file system, filled by the driver over a drive that follows the protocol.
abbrev pub ata_disk : {W : Type 0} (p : Ports W) (d : Drive p) (st : Stores p d) → Disk W
ata_disk p d st = record {
  ata_read = ata_read p;
  ata_write = ata_write p;
  sector = d.sector;
  sector_size = d.sector_size;
  sector-IsBytes = d.sector-IsBytes;
  read_status = λ n w. read-status p d n w;
  read_buffer = λ n w h. (ata_read-sector p d n w h).1;
  read_keeps = λ n m w. ata_read-keeps p d n m w;
  write_sector = λ n m buf w h size bytes. (ata_write-sector p d st n m buf w h size bytes).1;
}
