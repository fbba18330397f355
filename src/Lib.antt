-- ===== src/Lib.antt =====
-- nind: a flat-file inverted index (src/cpp).
--
-- The parts. Every file of nind is made of little- and big-endian integers, of "latecon" integers
-- of variable length, and of strings. NindFile (src/cpp/NindBasics/NindFile.cpp) puts them into a
-- write buffer that it writes to the file, and reads the file back into a read buffer. NindReadBuffer
-- (src/cpp/NindBasics/NindReadBuffer.cpp) takes them from there with the help of NindBytes
-- (src/cpp/NindBasics/NindBytes.h). NindLexicon (src/cpp/NindLexicon/NindLexicon.cpp) gives
-- identifiers to simple and compound words, and saves each new word in a lexicon file, the records
-- of NindLexiconFile (src/cpp/NindLexicon/NindLexiconFile.cpp). NindDocIdMap
-- (src/cpp/NindIndex/NindDocIdMap.h) is the table from the documents' external identifiers to
-- internal ones, which NindLocalIndex keeps in memory. NindPadFile
-- (src/cpp/NindBasics/NindPadFile.cpp) is the envelope of the index files: a header, a chain of blocks
-- of entries, free data, and a tail. NindIndex (src/cpp/NindIndex/NindIndex.cpp) makes of it a store of
-- definitions of variable length, whose places are the entries, and which uses empty areas again.
-- NindLocalIndex (src/cpp/NindIndex/NindLocalIndex.cpp) is such an index, whose definitions are the
-- documents: their terms with categories and localisations. NindTokenizer
-- (src/cpp/NindIndex/NindTokenizer.cpp) splits texts into the words that are indexed.
--
-- The files.
-- Prelude: shared names, tests on numbers, lists (Lists), bit operations as arithmetic (Bits),
--   actions with exceptions (Exec), signed integers (Int), maps (Map, and Ordered
--   and Merge for those listed by increasing key).
-- Bytes: NindBytes.h (be2 to lat_bits); Bytes.Values: the same as plain arithmetic.
-- ReadBuffer: NindReadBuffer (getInt1 is get_int1, getUIntLat is get_u_int_lat, and so on);
--   Ahead, Decode, Signed: what the decoders return on given bytes; Safety: what they may touch.
-- WriteBuffer: the put functions of NindFile; Written, Fixed, Signed: the bytes that they leave.
-- File: the open file of NindFile, its reads, writes, positions and bulk mode; Content: what
--   is in it; Leaves, Sizes: the size that is remembered; ReadIn, Reread: what was written is read.
-- Codec: encoders against decoders (Unsigned, Signed, Wide, Fixed, Text).
-- Lexicon: addWord, getId and getIdentification of NindLexicon; Invariant: what holds of its
--   maps; Simple, Compound, Add, Words: addWord; Denote: the meaning of identifiers. The lexicon
--   file is the interface WordStore, whose operations may throw and change its state in any way.
-- LexiconFile: the records of NindLexiconFile (src/cpp/NindLexicon/NindLexiconFile.cpp) over File,
--   and the store that they make for Lexicon; Records: the records as bytes; Puts,
--   Reread: a record written, and read again.
-- PadFile: the state of a pad file, its sizes, the positions of entries, the checks of a block and
--   of the header; Reading: the map of the blocks, the specifics, the identification, the
--   positioned reads; Writing: the tail, bulk writes, new blocks; Opening: the constructor;
--   Sharing: getEntryPosAt; Stats: chercheVides and analysePadFile. Positions, Chain, Chain.Walk,
--   Entries: where the entries are; Holes: chercheVides; Bulk, Tracking, Growth: bulk mode.
-- Index: the state of NindIndex and its indirections; Areas: findNewArea, vacateOldArea,
--   fillEmptyAreas; Defining: definitions got and set; Parts: parts of a definition, and positioned
--   reads; BulkMode: beginBulk and endBulk; Spaces: the constructor and analyseIndex. Areas.Ranges,
--   Places, Found, Vacated: the empty areas; Store, Bulk, Placing: what is where in the file;
--   Written, Kept, Envelope, Again: the bytes of the definitions, and what stays of the envelope.
-- LocalIndex: the state of NindLocalIndex and the fields of a definition; Terms: the loops over the
--   terms of a document, in decodeLocalDef and setLocalDef; Documents: setLocalDef; Queries:
--   getLocalDef, getLocalLength, getDocIdents, fillDocIdTradExtInt and the constructor; Sharing:
--   the calls of several threads. Terms.Prefix, Coding, Again: the terms as bytes, and read again;
--   Fields, Whole, Decoded: a definition put and decoded; Counting: getLocalLength; Numbering: the
--   internal identifiers.
-- DocIdMap: find, set, erase, size and forEach of NindDocIdMap; Invariant: its well-formedness and
--   the search for a position; Append, Find, Keeps, Branches, Changes: what an operation does in
--   each branch; Documents, History: the table as a finite map; Merge, Visit: forEach.
-- Tokenizer: tokenize (its three loops word_end, pieces and tokenize_from), isBoundary, charClass and
--   getToken of NindTokenizer (src/cpp/NindIndex/NindTokenizer.cpp); Chars, Words, Spans, Pieces,
--   Tokens: from characters to tokens; Boundary: where words are cut, and what a token becomes.
-- Tests: runs and instances.
--
-- State and errors. An object is a record; an operation takes it and returns a result beside the
-- object as it is afterwards, also when it throws. The exceptions of src/cpp/NindExceptions.h are
-- the constructors of Error, without their texts. Pointers into a buffer are offsets from its head,
-- and memory outside a buffer is not there: reading it is the result `undefined`, which no C++
-- exception is. Bytes and unsigned integers are natural numbers, with every wrap-around written
-- out; a signed int is an integer with its 32-bit pattern. An allocation is a parameter that says
-- whether the room is granted. A device that fails takes only so many more bytes, so that a write on
-- it may be cut short: these bytes are in the file when WriteFileException is thrown. Loops recur on their lists, but for two of the tokenizer, which walk
-- a text by the lengths of its characters: their fuel is one more than the bytes of the text, and
-- each round moves on by a byte at least. The walks over a chain of blocks have one round more than
-- the file has bytes, since each block lies behind the one before it; the loop over the indirections
-- of an existing file has one round more than the map has entries, and a block of n entries is
-- written in at most n slices. A loop that its fuel would cut off gives the error `endless`. The loop
-- over the terms of a document has as many rounds as there are bytes of them.
--
-- Not modelled: the calls of the operating system that open, lock and close files (their answers are
-- arguments), the interleaving of threads but for what others do to a snapshot before a lock is
-- taken, the statistics in floating point, the lexicon reader's refresh every ten seconds, the
-- index files of terms, words and names over NindIndex and everything above them, the Python
-- package.
pub mod Prelude
pub mod Bytes
pub mod ReadBuffer
pub mod WriteBuffer
pub mod Codec
pub mod Lexicon
pub mod DocIdMap
pub mod LexiconFile
pub mod PadFile
pub mod Index
pub mod LocalIndex
pub mod File
pub mod Tokenizer
pub mod Tests
