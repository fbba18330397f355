-- ===== src/Tests.antt =====
-- Runs of the models on concrete inputs, and the theorems at concrete inputs.
mod Codec
mod ReadBuffer
mod Lexicon
mod DocIdMap
mod LexiconFile
mod File
mod Tokenizer
mod PadFile
mod PadBlocks
mod Index
mod LocalIndex
