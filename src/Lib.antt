-- ===== src/Lib.antt =====
-- A model of pdfdebug, an inspector for PDF files, and of what its core promises.
--
-- The program reads untrusted PDF files through the pdfcpu library. Before pdfcpu may decode a
-- stream, internal/pdfcore measures what the decode would allocate (boundeddecode.go and
-- streamcount.go). Images are described by joining two independent switches (jpegmarkers.go feeds
-- sampleinterpretation.go). References between objects are indexed (reverserefs.go) and followed
-- (resolve.go) over pdfcpu's Dereference, which is any function from keys to objects here. What a
-- signature signs is measured against the file (signature.go), which is read only as long as it is
-- the one that was opened (filechange.go). Around that core, internal/pendingopen buffers the paths
-- the system asks to open, internal/recentfiles keeps the paths opened last, which recentflush.go
-- decides when to save, and internal/filewatch polls the open files for changes.
-- internal/updatecheck looks for new releases and keeps a record of the answer for each of the two
-- programs, which internal/atomicfile writes.
--
--   Prelude               Boolean tests, bytes, integers, Go maps and strings, results with an error
--   PdfObject             the PDF objects that the code's type switches tell apart
--   Decode.Hex            asciiHexReader (internal/pdfcore/streamcount.go)
--   Decode.RunLength      runLengthReader (the same file)
--   Decode.Geometry       predictor parameters and rows, CCITT sizes (streamcount.go, boundeddecode.go)
--   Decode.Stages         stageCounters, filterReader and the verdict of countStages (streamcount.go)
--   Decode.Bounded        decodeBounded (internal/pdfcore/boundeddecode.go)
--   Ber                   normalizeBER (internal/pdfcore/ber.go)
--   JpegMarkers           scanAdobeMarker (internal/pdfcore/jpegmarkers.go)
--   SampleInterpretation  sampleInterpretationVerdict (internal/pdfcore/sampleinterpretation.go)
--   ReverseRefs           buildReverseRefs and GetReverseRefs (internal/pdfcore/reverserefs.go)
--   Resolve               ResolveRef (internal/pdfcore/resolve.go)
--   FileChange            the checked reads of the opened file (internal/pdfcore/filechange.go)
--   Signature             collectSignatures with the measurement of /ByteRange
--                         (internal/pdfcore/signature.go)
--   NumberTree            walkNumberTree (internal/pdfcore/numbertree.go)
--   PendingOpen           Queue with Add and Drain (internal/pendingopen/queue.go)
--   RecentFiles           Load, Add, Remove and Clear (internal/recentfiles/recentfiles.go)
--   RecentFlush           when the recent list is saved (recentflush.go, saveRecent in main.go)
--   FileWatch             settle (internal/filewatch/watcher.go)
--   FileWatch.Scheduler   the select loop of run, with checkAll and applyPending (the same file)
--   AtomicFile            Writer.Write (internal/atomicfile/atomicfile.go)
--   UpdateCheck           Check and DownloadAndVerify (internal/updatecheck/updatecheck.go), and Cache
--                         (cache.go beside it)
--
-- A Go method on a pointer is a function from the old state to the new one, and an operation keeps
-- its Go name in snake case. A reader is the input it has left with its flags, and Read returns the
-- bytes with the new reader. A method that holds a mutex for its whole body is one step, so a
-- concurrent run is a sequence of steps. Errors are values.
--
-- Sizes are natural numbers and Go's int is ℤ where the source lets it be negative; the arithmetic
-- on CCITT sizes and on byte ranges is wrapped to 64 bits. Bytes are numbers, and every reader
-- treats those above 255 as bytes that it does not know.
--
-- Fuel: a hex reader is drained by as many Reads as it has bytes and one more, since each Read but
-- the last takes a byte. A run-length reader is drained by 128 Reads for each byte of input and one
-- more, since a control byte gives at most 128 bytes. Rows take at least one byte each. The marker
-- walk and the search for a free file name have the source's own counts. The round trips of the
-- readers show that this is enough, for they hold of every chunk size. The loops of normalizeBER have
-- a round for each byte in front of them and one more, since each takes a byte. The walk for the
-- index of references has a round for each key that can be read and one more, since a round takes an
-- entry off the queue and each key is put there once. The walk over the form fields and ResolveRef
-- have the source's depths.
--
-- The decoders that are not part of the repository are parameters: zlib, LZW and ASCII85 as
-- functions on bytes (Codecs), pdfcpu's Decode as any function on the StreamDict, and the floating
-- point values of /Decode as any type with tests for 0 and 1. The package semver is any order of
-- versions with a test (Semver), a release page any function on addresses, and a system call what it
-- returns (Calls, FileCalls, Files, and Answers for os.Stat, which may say something else each
-- time), and sha256 any function on bytes. A record file holds what the JSON decoder makes of it, so
-- that the JSON package is taken to read what it wrote. For the reads of the opened file the results
-- of the system calls, os.SameFile, the code points that Go makes of bytes and strings.EqualFold are
-- parameters (Stats, Reader), and so is textStringOrRaw; where the meaning of EqualFold is needed, a
-- named hypothesis says that it compares folded code points (Folds). Not modelled: the progress
-- callbacks of a download, the labels of the recent files, the window toolkit, the command line, the
-- views over pdfcpu objects that only format them, I/O, and the parts of the library that the
-- manifest lists as planned.
pub mod Prelude
pub mod AtomicFile
pub mod Ber
pub mod Decode
pub mod FileWatch
pub mod JpegMarkers
pub mod NumberTree
pub mod PdfObject
pub mod PendingOpen
pub mod RecentFiles
pub mod FileChange
pub mod Signature
pub mod RecentFlush
pub mod Resolve
pub mod ReverseRefs
pub mod SampleInterpretation
pub mod UpdateCheck
