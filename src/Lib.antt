-- ===== src/Lib.antt =====
-- IteratorRecognition: LLVM passes that find, in each loop of a function, the instructions that form
-- its iterator, and that judge from the rest, the payload, whether the loop's updates commute.
--
-- The parts, and the files that follow them:
-- - Prelude and its children: lists, membership, sorting as std::sort and std::unique do, pointer
--   sets, well-founded recursion.
-- - Ir: what the sources ask of LLVM (values, uses, operands, blocks, loops), as records of queries.
--   LLVM and Pedigree are outside the repository, so these records are parameters throughout. The
--   one law among the queries of Ir is that a loop is deeper than the loop around it.
-- - Extras (include/IteratorRecognition/Support/Utils/Extras.hpp): unique_inplace, is_subset_of,
--   operator==, is_null_unit.
-- - CondensationGraph (include/IteratorRecognition/Support/CondensationGraph.hpp): the constructor,
--   computeEdges, findCondensationExternalEdges, setEntryNode, find, and in CondensationGraph.Examples
--   the tests of unittests/CondensationGraphTests.cpp. The strongly connected
--   components come from llvm::scc_iterator and are a parameter. A condensation's address is its
--   index in the vector, and a lookup by std::map::at that throws is none.
-- - Recognition (include/IteratorRecognition/Analysis/IteratorRecognition.hpp and
--   lib/Analysis/IteratorRecognition.cpp): MapCondensationToLoops, RecognizeIterator, the lookups of
--   IteratorRecognitionInfo, and in Recognition.Blocks the block and subloop queries.
-- - Worklist: the loop over a work list that getVariance, MutationDetector::process and
--   getDisposition share. Its fuel
--   bounds the values taken off the list; as many as there are roots and operands among the values at
--   hand are enough, since each value is visited once.
-- - Variance (include/IteratorRecognition/Analysis/IteratorValueTracking.hpp): the lattice of
--   IteratorVariance, the cache of IteratorVarianceAnalyzer, and in Variance.Search its getVariance.
-- - Commutativity (include/IteratorRecognition/Analysis/StaticCommutativityAnalyzer.hpp): the static
--   commutativity analysis, over the variance analysis as a parameter, with the cache as state.
-- - ValueClassification (lib/Analysis/ValueClassification.cpp): iterator values, payload values, live
--   registers and memory.
-- - DependenceCache (include/IteratorRecognition/Analysis/DependenceCache.hpp): calculate and getData,
--   over the alias analysis as a parameter.
-- - ShadowDependenceGraph (include/IteratorRecognition/Support/ShadowDependenceGraph.hpp): the nodes,
--   which stand at addresses given out in order, the edges, the look-ups, the copies of
--   computeNextIterationNodes and computeNextIterationEdges, computeCrossIterationEdges, and
--   IsIteratorDependent. A look-up that throws, or a null pointer that is followed, is none.
-- - DetectOperations (include/IteratorRecognition/Analysis/DetectOperations.hpp): MutationDetector's
--   process, over the shadow graph and the dependence cache.
-- - DispositionTracker (include/IteratorRecognition/Analysis/DispositionTracker.hpp and
--   lib/Analysis/DispositionTracker.cpp): init, isIterator and getDisposition.
-- - GraphUpdater (include/IteratorRecognition/Analysis/GraphUpdater.hpp, and the queues of
--   PayloadDependenceGraphAnalysis::run in lib/Analysis/Passes/PayloadDependenceGraphPass.cpp): the
--   edits of the dependence graph, each with the one that takes it back, their creation from the
--   variance of a dependence's ends, and their execution. The graph is Pedigree's, so it is a
--   parameter, and IsEdited states what its operations are documented to do to its
--   edges, IsPresent what its look-up answers, and IsFlagged what the tests of an edge's flags answer.
-- - PayloadDependenceGraph (PayloadDependenceGraphAnalysis::run, and
--   include/IteratorRecognition/Support/LoopRPO.hpp): the pass that puts the analyses together, with its
--   white list of functions, whose names are numbers. The blocks of a loop in reverse post-order,
--   dominance, the bounds on the depth of loops, and the dependence graph as a graph of nodes are its
--   inputs, in PassInput. The verdict on a loop is over the variance analysis as a parameter.
-- - Annotator (include/IteratorRecognition/Exchange/MetadataAnnotation.hpp and
--   lib/Transforms/Passes/AnnotatorPass.cpp): MetadataAnnotationWriter and AnnotatorPass::run. The
--   metadata nodes are LLVM's, so their operations are a parameter; the strings are numbers, and the
--   three keys are apart from each other.
-- - Json (include/IteratorRecognition/Exchange/JSONTransfer.hpp, lib/Exchange/JSONTransfer.cpp,
--   lib/Support/Utils/DebugInfo.cpp, and the conversions of the edits in
--   include/IteratorRecognition/Analysis/GraphUpdater.hpp): the JSON values of condensations, loops,
--   verdicts and edits. The texts of instructions and where loops stand come from LLVM, in Printed. An
--   object is the list of its entries, and a null pointer that is followed, such as the latch of a loop
--   with several or the empty location of a loop without debug information, is none.
-- - Classification (lib/Analysis/Passes/ValueClassificationPass.cpp): checkAndSetCmdLineOptions, with
--   the set options as a record.
-- - Demotion (lib/Transforms/Utils/DemotePayloadPhis.cpp): DemotePhiPayloadValues, over LLVM's demotion
--   of one phi, which changes the function, as a parameter.
--
-- Pointers are numbers, so that sorting by address is sorting numbers. Sets of pointers are lists in
-- the order of insertion; the statements speak of membership only, and what is recorded for a loop is
-- sorted by address. The while loop over enclosing loops is recursion on the well-foundedness of the
-- loop nest. The loops over a work list take fuel, with theorems that enough returns; IsIteratorDependent,
-- which keeps no visited set, has one for values that lead to no cycle, whose fuel is the number of
-- chains of operands, and one that none does on a cycle. Every other loop is a recursion on a list.
--
-- Not modelled: the body of the classification pass, which only prints or is commented out; the files
-- that the reports go to, printing, statistics and pass registration, which are output and glue.
-- Assertions are left out.
pub mod Demotion
pub mod Classification
pub mod Prelude
pub mod Ir
pub mod Extras
pub mod CondensationGraph
pub mod Recognition
pub mod Variance
pub mod Annotator
pub mod Commutativity
pub mod DependenceCache
pub mod Worklist
pub mod ShadowDependenceGraph
pub mod DetectOperations
pub mod DispositionTracker
pub mod GraphUpdater
pub mod PayloadDependenceGraph
pub mod ValueClassification
pub mod Json
