-- ===== src/Saver/Files/Read.antt =====
-- saver/saver.go `MessageSaverLoop` and `runMarshaller`, then netlink/archival-record.go
-- `LoadAllArchivalRecords`: from the kernel's messages to the files and back.
use tcp_info.Base.{List, [], ◌∷◌, Option, none, some}
use tcp_info.Bytes.{Bytes}
use tcp_info.Netlink.{ArchivalRecord}
use tcp_info.Saver.Files.{Filed, AllFiled}
use tcp_info.Saver.Marshal.{All, HasWriter}
use tcp_info.Saver.{Os, Writer, Task, Saver}

Filed-HasWriter :
    (os : Os) (m : Option ArchivalRecord) (w : Option Writer) → Filed os m w → HasWriter w
Filed-HasWriter os m none filed = filed
Filed-HasWriter os m (some w) filed = tt

AllFiled-HasWriter :
    (os : Os) (tasks : List Task)
    → All (λ (t : Task). Filed os t.message t.writer) tasks
    → All (λ (t : Task). HasWriter t.writer) tasks
AllFiled-HasWriter os [] h = tt
AllFiled-HasWriter os (t ∷ tasks) h =
    (Filed-HasWriter os t.message t.writer h.0, AllFiled-HasWriter os tasks h.1)

pub AllFiled-HasWriters :
    (os : Os) (chans : List (List Task))
    → AllFiled os chans
    → All (λ (tasks : List Task). All (λ (t : Task). HasWriter t.writer) tasks) chans
AllFiled-HasWriters os [] h = tt
AllFiled-HasWriters os (tasks ∷ chans) h =
    (AllFiled-HasWriter os tasks h.0, AllFiled-HasWriters os chans h.1)
